-- ===== src/Ftp/Data.antt =====
-- Listings, data sockets and transfers: lines 32 to 226 of FTP/ftp_server.c. The loops take fuel.
use Prim.Native.Nat.{bit_and}
use llp_filesystem.Base.{
  ℕ, zero, suc, ◌+◌, ◌/◌, ◌%◌, Bool, true, false, [], ◌∷◌, ◌++◌, ltb, ◌==◌, if◌then◌else◌, length,
  ℤ, pos, failure,
}
use llp_filesystem.Ftp.System.{
  Str, codes, FileStat, Call, System, Io, out_of_fuel, pure, ◌>>=◌, ◌>>◌, check, call, is_error,
  is_zero, is_positive, decimal, snprintf,
}

-- One character of the mode: `c` if the bits of the mask are set.
abbrev mode_char : ℕ → ℕ → ℕ → ℕ
mode_char mode mask c = if bit_and mode mask == 0 then b'-' else c

abbrev permissions : ℕ → Str
permissions mode =
    mode_char mode 0o400 b'r'
    ∷ mode_char mode 0o200 b'w'
    ∷ mode_char mode 0o100 b'x'
    ∷ mode_char mode 0o040 b'r'
    ∷ mode_char mode 0o020 b'w'
    ∷ mode_char mode 0o010 b'x'
    ∷ mode_char mode 0o004 b'r'
    ∷ mode_char mode 0o002 b'w'
    ∷ mode_char mode 0o001 b'x'
    ∷ []

abbrev pub buffer_size : ℕ
buffer_size = 1024

abbrev pub list_buffer_size : ℕ
list_buffer_size = 8192

-- `time_text` is `strftime` of `localtime`, with the format of the code.
module _ (time_text : ℕ → Str) where
  unfoldable pub get_file_line : Str → FileStat → Str
  get_file_line filename st =
      let kind = if bit_and st.st_mode 0o170000 == 0o040000 then b'd' else b'-' in
      let space = codes " " in
      snprintf 256 (
        (kind ∷ permissions st.st_mode)
        ++ (space
            ++ (decimal st.st_nlink
                ++ (space
                    ++ (decimal st.st_uid
                        ++ (space
                            ++ (decimal st.st_size
                                ++ (space
                                    ++ (time_text st.st_mtime
                                        ++ (space ++ (filename ++ codes "\n")))))))))))

module _ (sys : System) where
  -- The loop over the directory: `info`, with the check that `strcat` stays inside.
  unfoldable pub list_entries : (ℕ → Str) → ℕ → Str → Io Str
  list_entries time_text zero info = λ _. out_of_fuel
  list_entries time_text (suc fuel) info = do
    entry ← call sys Call.readdir
    if is_zero entry.code then (do _ ← call sys Call.closedir; pure info) else (do
      st ← call sys (Call.stat (snprintf 256 (codes "./" ++ entry.bytes)))
      if is_error st.code then list_entries time_text fuel info else (do
        let line = get_file_line time_text entry.bytes st.stat
        check (ltb (length info + length line) list_buffer_size)
        list_entries time_text fuel (info ++ line)))

  -- The listing, and whether it is a string that may be freed.
  unfoldable pub get_listing : (ℕ → Str) → ℕ → Io (Str × Bool)
  get_listing time_text fuel = do
    dir ← call sys (Call.opendir (codes "."))
    if is_zero dir.code
        then pure (codes "Error opening directory", false)
        else (do info ← list_entries time_text fuel []; pure (info, true))

  unfoldable pub send_response : ℤ → Str → Io (Unit {0})
  send_response fd response = do _ ← call sys (Call.send fd response); pure tt

  unfoldable pub change_directory : Str → Io ℤ
  change_directory new_path = do
    r ← call sys (Call.chdir new_path)
    pure (if is_zero r.code then pos 0 else failure)

  unfoldable pub create_directory : Str → Io ℤ
  create_directory path = do r ← call sys (Call.mkdir path); pure r.code

  unfoldable pub remove_directory : Str → Io ℤ
  remove_directory path = do r ← call sys (Call.rmdir path); pure r.code

  unfoldable pub get_server_ip_address : ℤ → Io Str
  get_server_ip_address control_socket = do
    r ← call sys (Call.getsockname control_socket)
    pure r.bytes

  unfoldable pub get_data_port_high : ℤ → Io ℕ
  get_data_port_high data_socket = do
    r ← call sys (Call.getsockname data_socket)
    pure (r.port / 256)

  unfoldable pub get_data_port_low : ℤ → Io ℕ
  get_data_port_low data_socket = do
    r ← call sys (Call.getsockname data_socket)
    pure (r.port % 256)

  -- The socket, and the port that it listens on.
  unfoldable pub open_passive_data_socket : Io (ℤ × ℕ)
  open_passive_data_socket = do
    s ← call sys Call.socket
    if is_error s.code then pure (failure, 0) else (do
      bound ← call sys (Call.bind s.code)
      if is_error bound.code then (do _ ← call sys (Call.close s.code); pure (failure, 0)) else (do
        listening ← call sys (Call.listen s.code 1)
        if is_error listening.code
            then (do _ ← call sys (Call.close s.code); pure (failure, 0))
            else (do
              local ← call sys (Call.getsockname s.code)
              if is_error local.code
                  then (do _ ← call sys (Call.close s.code); pure (failure, 0))
                  else pure (s.code, local.port))))

  unfoldable pub accept_passive_connection : ℤ → Io ℤ
  accept_passive_connection passive_socket = do
    r ← call sys (Call.accept passive_socket)
    pure (if is_error r.code then failure else r.code)

  unfoldable pub receive_loop : ℕ → ℤ → Io (Unit {0})
  receive_loop zero data_socket = λ _. out_of_fuel
  receive_loop (suc fuel) data_socket = do
    received ← call sys (Call.recv data_socket buffer_size)
    if is_positive received.code
        then (do _ ← call sys (Call.fwrite received.bytes); receive_loop fuel data_socket)
        else (do _ ← call sys Call.fclose; pure tt)

  unfoldable pub receive_file : ℕ → ℤ → Str → Io (Unit {0})
  receive_file fuel data_socket file_path = do
    file ← call sys (Call.fopen file_path (codes "wb"))
    if is_zero file.code then pure tt else receive_loop fuel data_socket

  unfoldable pub send_loop : ℕ → ℤ → Io (Unit {0})
  send_loop zero data_socket = λ _. out_of_fuel
  send_loop (suc fuel) data_socket = do
    got ← call sys (Call.fread buffer_size)
    if is_positive got.code
        then (do _ ← call sys (Call.send data_socket got.bytes); send_loop fuel data_socket)
        else (do _ ← call sys Call.fclose; pure tt)

  unfoldable pub send_file : ℕ → ℤ → Str → Io (Unit {0})
  send_file fuel data_socket file_path = do
    file ← call sys (Call.fopen file_path (codes "rb"))
    if is_zero file.code then pure tt else send_loop fuel data_socket
