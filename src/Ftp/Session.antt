-- ===== src/Ftp/Session.antt =====
-- The command session: `handle_ftp_commands` and `main` of FTP/ftp_server.c, a function for each
-- command.
use llp_filesystem.Base.{ℕ, not, [], ◌∷◌, ◌++◌, ltb, ◌==◌, if◌then◌else◌, length, get_or, drop, ℤ}
use llp_filesystem.Fat.Path.{c_string}
use llp_filesystem.Ftp.System.{
  Str, codes, Call, System, Io, pure, ◌>>=◌, ◌>>◌, check, call, is_error, is_zero, skip_spaces,
  word, decimal, snprintf,
}
use llp_filesystem.Ftp.Data.{
  buffer_size, get_listing, send_response, change_directory, create_directory, remove_directory,
  get_server_ip_address, get_data_port_high, get_data_port_low, open_passive_data_socket,
  accept_passive_connection, receive_file, send_file,
}

-- The local variables that live across commands; `data_socket` is -1 at first.
pub record Session : Type 0 where
  pub username : Str
  pub password : Str
  pub data_socket : ℤ

-- `sscanf(buffer, "... %s", arg)` with `n` bytes before the blank: the word goes to an array of 100
-- bytes, which has room for 99 and the NUL.
unfoldable pub scan_word : ℕ → Str → Io Str
scan_word n buffer = do
  let arg = word (skip_spaces (c_string (drop n buffer)))
  check (ltb (length arg) 100)
  pure arg

unfoldable pub commas : Str → Str
commas [] = []
commas (c ∷ s) = (if c == b'.' then b',' else c) ∷ commas s

abbrev pub no_data : Str
no_data = codes "425 Can't open data connection.\r\n"

module _ (sys : System) (client : ℤ) (time_text : ℕ → Str) (fuel : ℕ) where
  abbrev reply : Str → Io (Unit {0})
  reply text = send_response sys client text

  unfoldable pub port_command : Io (Unit {0})
  port_command = reply (
      codes
        "502 This server does not support active mode. Consider using passive mode instead.\r\n")

  unfoldable pub pasv_command : Session → Io Session
  pasv_command s = do
    (data_socket, data_port) ← open_passive_data_socket sys
    ip ← get_server_ip_address sys client
    if not (is_error data_socket)
        then (do
          high ← get_data_port_high sys data_socket
          low ← get_data_port_low sys data_socket
          reply (
              snprintf buffer_size (
                codes "227 Entering Passive Mode ("
                ++ (commas ip
                    ++ (codes ","
                        ++ (decimal high ++ (codes "," ++ (decimal low ++ codes ").\r\n")))))))
          pure (record s { data_socket = data_socket }))
        else (do reply no_data; pure (record s { data_socket = data_socket }))

  -- The end of a transfer: the final reply, and the data sockets closed.
  unfoldable pub finish_transfer : ℤ → Session → Str → Io (Unit {0})
  finish_transfer accepted s text = do
    reply text
    _ ← call sys (Call.close accepted)
    _ ← call sys (Call.close s.data_socket)
    pure tt

  unfoldable pub stor_command : Session → Str → Io (Unit {0})
  stor_command s buffer = do
    accepted ← accept_passive_connection sys s.data_socket
    filename ← scan_word 4 buffer
    if not (is_error accepted)
        then (do
          reply (codes "150 Opening data connection for STOR.\r\n")
          receive_file sys fuel accepted filename
          finish_transfer accepted s (codes "226 File transfer complete.\r\n"))
        else reply no_data

  unfoldable pub retr_command : Session → Str → Io (Unit {0})
  retr_command s buffer = do
    accepted ← accept_passive_connection sys s.data_socket
    filename ← scan_word 4 buffer
    if not (is_error accepted)
        then (do
          reply (codes "150 Opening data connection for RETR.\r\n")
          send_file sys fuel accepted filename
          finish_transfer accepted s (codes "226 File transfer complete.\r\n"))
        else reply no_data

  unfoldable pub epsv_command : Session → Io Session
  epsv_command s = do
    (data_socket, data_port) ← open_passive_data_socket sys
    if not (is_error data_socket)
        then (do
          reply (
              snprintf buffer_size (
                codes "229 Entering Extended Passive Mode (|||"
                ++ (decimal data_port ++ codes "|).\r\n")))
          pure (record s { data_socket = data_socket }))
        else (do reply no_data; pure (record s { data_socket = data_socket }))

  -- The listing is cut to the size of `response`, and `free` of a string literal is a fault.
  unfoldable pub list_command : Session → Io (Unit {0})
  list_command s = do
    accepted ← accept_passive_connection sys s.data_socket
    if not (is_error accepted)
        then (do
          reply (codes "150 Opening data connection for directory listing.\r\n")
          (ls_result, on_heap) ← get_listing sys time_text fuel
          send_response sys accepted (snprintf buffer_size (ls_result ++ codes "\r\n"))
          check on_heap
          finish_transfer accepted s (codes "226 Directory listing sent.\r\n"))
        else reply no_data

  unfoldable pub type_command : Str → Io (Unit {0})
  type_command buffer =
      let transfer_mode = get_or buffer 5 0 in
      if transfer_mode == b'A'
      then reply (codes "200 Switching to ASCII mode.\r\n")
      else if transfer_mode == b'I'
      then reply (codes "200 Switching to Binary mode.\r\n")
      else reply (codes "500 Unknown transfer mode.\r\n")

  -- A word that is missing leaves the array as it is.
  abbrev scanned : Str → Str → Str
  scanned old arg = if length arg == 0 then old else arg

  unfoldable pub user_command : Session → Str → Io Session
  user_command s buffer = do
    arg ← scan_word 4 buffer
    reply (codes "331 User name okay, need password\n")
    pure (record s { username = scanned s.username arg })

  unfoldable pub pass_command : Session → Str → Io Session
  pass_command s buffer = do
    arg ← scan_word 4 buffer
    reply (codes "230 User logged in\n")
    pure (record s { password = scanned s.password arg })

  -- The replies of CWD and CDUP.
  unfoldable pub change_to : Str → Io (Unit {0})
  change_to new_dir = do
    r ← change_directory sys new_dir
    reply (
        if is_zero r
        then codes "250 Directory changed\r\n"
        else codes "550 Failed to change directory\r\n")

  unfoldable pub cwd_command : Str → Io (Unit {0})
  cwd_command buffer = do new_dir ← scan_word 3 buffer; change_to new_dir

  unfoldable pub cdup_command : Io (Unit {0})
  cdup_command = change_to (codes "..")

  unfoldable pub rmd_command : Str → Str → Io (Unit {0})
  rmd_command current_directory buffer = do
    dir_name ← scan_word 3 buffer
    r ← change_directory sys current_directory
    if is_zero r
        then (do
          done ← remove_directory sys (current_directory ++ (codes "/" ++ dir_name))
          reply (
              if is_zero done
              then codes "250 Directory deleted\r\n"
              else codes "550 Failed to delete directory\r\n"))
        else reply (codes "550 Failed to delete directory\r\n")

  unfoldable pub mkd_command : Str → Str → Io (Unit {0})
  mkd_command current_directory buffer = do
    dir_name ← scan_word 3 buffer
    r ← change_directory sys current_directory
    if is_zero r
        then (do
          done ← create_directory sys (current_directory ++ (codes "/" ++ dir_name))
          reply (
              if is_zero done
              then codes "257 Directory created\r\n"
              else codes "550 Failed to create directory\r\n"))
        else reply (codes "550 Failed to create directory\r\n")

  unfoldable pub pwd_command : Str → Io (Unit {0})
  pwd_command current_directory = reply (
      snprintf buffer_size
        (codes "257 \"" ++ (current_directory ++ codes "\" is the current directory\r\n")))
