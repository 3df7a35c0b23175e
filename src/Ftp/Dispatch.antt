-- ===== src/Ftp/Dispatch.antt =====
-- The loop of `handle_ftp_commands`, and a round of the loop of `main`.
use llp_filesystem.Base.{
  ℕ, zero, suc, Bool, true, false, ltb, ◌==◌, if◌then◌else◌, length, ℤ, [], failure,
}
use llp_filesystem.Fat.Path.{c_string}
use llp_filesystem.Ftp.System.{
  Str, codes, Call, System, Io, out_of_fuel, pure, ◌>>=◌, ◌>>◌, check, call, is_error, is_zero,
  starts_with,
}
use llp_filesystem.Ftp.Data.{buffer_size, send_response}
use llp_filesystem.Ftp.Session.{
  Session, port_command, pasv_command, stor_command, retr_command, epsv_command, list_command,
  type_command, user_command, pass_command, cwd_command, cdup_command, rmd_command, mkd_command,
  pwd_command,
}

-- The commands that the code tells apart.
pub data Command : Type 0 where
  port pasv stor retr epsv list type user pass cwd cdup rmd mkd pwd quit unknown : Command

-- The tests of the loop, in their order.
unfoldable pub command_of : Str → Command
command_of buffer =
    if starts_with buffer (codes "PORT")
    then port
    else (if starts_with buffer (codes "PASV")
        then pasv
        else (if starts_with buffer (codes "STOR")
            then stor
            else (if starts_with buffer (codes "RETR")
                then retr
                else (if starts_with buffer (codes "EPSV")
                    then epsv
                    else (if starts_with buffer (codes "LIST")
                        then list
                        else (if starts_with buffer (codes "TYPE")
                            then type
                            else (if starts_with buffer (codes "USER")
                                then user
                                else (if starts_with buffer (codes "PASS")
                                    then pass
                                    else (if starts_with buffer (codes "CWD")
                                        then cwd
                                        else (if starts_with buffer (codes "CDUP")
                                            then cdup
                                            else (if starts_with buffer (codes "RMD")
                                                then rmd
                                                else (if starts_with buffer (codes "MKD")
                                                    then mkd
                                                    else (if starts_with buffer (codes "PWD")
                                                        then pwd
                                                        else (if starts_with buffer (codes "QUIT")
                                                            then quit
                                                            else unknown))))))))))))))

module _ (sys : System) (client : ℤ) (time_text : ℕ → Str) (fuel : ℕ) where
  -- The session goes on with the state `s`.
  abbrev go_on : Session → Io (Unit {0}) → Io (Session × Bool)
  go_on s m = m >> pure (s, true)

  abbrev go_on_with : Io Session → Io (Session × Bool)
  go_on_with m = m >>= λ s. pure (s, true)

  -- A command: the new state, and whether the loop goes on.
  unfoldable pub perform : Session → Str → Str → Command → Io (Session × Bool)
  perform s current_directory buffer port = go_on s (port_command sys client time_text fuel)
  perform s current_directory buffer pasv = go_on_with (pasv_command sys client time_text fuel s)
  perform s current_directory buffer stor =
      go_on s (stor_command sys client time_text fuel s buffer)
  perform s current_directory buffer retr =
      go_on s (retr_command sys client time_text fuel s buffer)
  perform s current_directory buffer epsv = go_on_with (epsv_command sys client time_text fuel s)
  perform s current_directory buffer list = go_on s (list_command sys client time_text fuel s)
  perform s current_directory buffer type = go_on s (type_command sys client time_text fuel buffer)
  perform s current_directory buffer user =
      go_on_with (user_command sys client time_text fuel s buffer)
  perform s current_directory buffer pass =
      go_on_with (pass_command sys client time_text fuel s buffer)
  perform s current_directory buffer cwd = go_on s (cwd_command sys client time_text fuel buffer)
  perform s current_directory buffer cdup = go_on s (cdup_command sys client time_text fuel)
  perform s current_directory buffer rmd =
      go_on s (rmd_command sys client time_text fuel current_directory buffer)
  perform s current_directory buffer mkd =
      go_on s (mkd_command sys client time_text fuel current_directory buffer)
  perform s current_directory buffer pwd =
      go_on s (pwd_command sys client time_text fuel current_directory)
  perform s current_directory buffer quit = do
    send_response sys client (codes "221 Goodbye!\r\n")
    pure (s, false)
  perform s current_directory buffer unknown = do
    send_response sys client (codes "500 Unknown command\r\n")
    pure (s, true)

  -- One round of the loop: whether it goes on. A command of 1024 bytes has no NUL behind it.
  unfoldable pub session_round : Session → Io (Session × Bool)
  session_round s = do
    received ← call sys (Call.recv client buffer_size)
    if is_error received.code then pure (s, false) else (do
      let size = length (c_string received.bytes)
      check (ltb size buffer_size)
      if size == 0 then pure (s, false) else (do
        got ← call sys Call.getcwd
        let current_directory : Str = if is_zero got.code then [] else got.bytes
        perform s current_directory received.bytes (command_of received.bytes)))

  unfoldable pub session_loop : ℕ → Session → Io Session
  session_loop zero s = λ _. out_of_fuel
  session_loop (suc rounds) s = do
    (s', more) ← session_round s
    if more then session_loop rounds s' else pure s'

  unfoldable pub handle_ftp_commands : ℕ → Io Session
  handle_ftp_commands rounds = do
    send_response sys client (codes "220 Welcome to FTP server\r\n")
    let start : Session = record { username = []; password = []; data_socket = failure }
    session_loop rounds start

-- A round of the loop of `main`.
unfoldable pub serve_round : System → (ℕ → Str) → ℕ → ℕ → ℤ → Io (Unit {0})
serve_round sys time_text fuel rounds server_socket = do
  r ← call sys (Call.accept server_socket)
  if is_error r.code then pure tt else (do
    _ ← handle_ftp_commands sys r.code time_text fuel rounds
    _ ← call sys (Call.close r.code)
    pure tt)
