-- ===== src/Ftp/Examples.antt =====
-- Runs of FTP/ftp_server.c against small systems, and the theorems applied to them.
use llp_filesystem.Base.{
  ℕ, zero, suc, ◌<◌, ◌≡◌, refl, length, ℤ, pos, failure, List, [], ◌∷◌, ◌++◌, arith,
}
use llp_filesystem.Fat.Path.{c_string}
use llp_filesystem.Ftp.System.{
  Str, codes, Call, Reply, System, Run, ok, fault, out_of_fuel, skip_spaces, word, starts_with,
}
use llp_filesystem.Ftp.Data.{send_response, change_directory, open_passive_data_socket}
use llp_filesystem.Ftp.Session.{
  Session, cwd_command, scan_word, change_to, stor_command, retr_command, list_command,
}
use llp_filesystem.Ftp.Dispatch.{
  cwd, perform, command_of, session_round, session_loop, handle_ftp_commands,
}
use llp_filesystem.Ftp.Replies.{argument, argument_of, Answered, perform-Answered, sends}
use llp_filesystem.Ftp.Transfers.{
  Stored, Retrieved, stor_command-Stored, retr_command-Retrieved, transfer-claims_complete,
}
use llp_filesystem.Ftp.Words.{AllWord, scan_word-name}
use llp_filesystem.Ftp.Sockets.{NoLeak, open_passive_data_socket-NoLeak, list_command-fault}

abbrev answer : ℤ → Str → Reply
answer n text = record {
  code = n;
  bytes = text;
  port = 2000;
  stat = record { st_mode = 0; st_nlink = 1; st_uid = 0; st_size = 0; st_mtime = 0 };
}

-- A system on which `bind` and `opendir` fail, and on which clients ask for the directory "a" and
-- hang up.
abbrev small_system : System
small_system [] = answer (pos 0) []
small_system (Call.socket ∷ h) = answer (pos 7) []
small_system (Call.bind fd ∷ h) = answer failure []
small_system (Call.accept fd ∷ h) = answer (pos 8) []
small_system (Call.recv fd n ∷ Call.send fd' text ∷ []) = answer (pos 7) (codes "CWD a\r\n")
small_system (_ ∷ h) = answer (pos 0) []

abbrev client : ℤ
client = pos 4

abbrev no_time : ℕ → Str
no_time n = []

abbrev logged_in : Session
logged_in = record { username = codes "u"; password = []; data_socket = pos 5 }

abbrev cwd_buffer : Str
cwd_buffer = codes "CWD a\r\n"

abbrev a_s : ℕ → Str
a_s zero = []
a_s (suc n) = b'a' ∷ a_s n

-- A whole session: the greeting, the answer to CWD, and the end at the empty buffer.
abbrev sent_by : Run Session → List (ℤ × Str)
sent_by (ok s h) = sends h
sent_by fault = []
sent_by out_of_fuel = []

session_runs :
    sent_by (handle_ftp_commands small_system client no_time 3 3 [])
    ≡ (client, codes "250 Directory changed\r\n")
      ∷ (client, codes "220 Welcome to FTP server\r\n")
      ∷ []
unfolding handle_ftp_commands send_response session_loop session_round c_string perform command_of
    starts_with cwd_command scan_word word skip_spaces change_to change_directory
session_runs = refl

cwd_short : length (argument_of cwd cwd_buffer) < 100
unfolding skip_spaces word c_string
cwd_short = ground arith

perform-Answered_example :
    Answered client [] (perform small_system client no_time 3 logged_in [] cwd_buffer cwd [])
perform-Answered_example =
    perform-Answered small_system client no_time 3 logged_in [] cwd_buffer cwd [] refl cwd_short

open_passive_data_socket-NoLeak_example :
    NoLeak small_system [] (open_passive_data_socket small_system [])
open_passive_data_socket-NoLeak_example = open_passive_data_socket-NoLeak small_system []

a_s-AllWord : (n : ℕ) → AllWord (a_s n)
a_s-AllWord zero = tt
a_s-AllWord (suc n) = (refl, refl, a_s-AllWord n)

-- STOR with a name of 100 bytes.
scan_word-name_example :
    scan_word 4 (codes "STOR" ++ (codes " " ++ (a_s 100 ++ codes "\r\n"))) [] ≡ fault
scan_word-name_example =
    scan_word-name 4 (codes "STOR") (codes " ") (a_s 100) (codes "\r\n") [] refl (refl, tt)
      (omega arith) (a_s-AllWord 100) refl

list_command-fault_example : list_command small_system client no_time 3 logged_in [] ≡ fault
list_command-fault_example = list_command-fault small_system client no_time 3 logged_in [] refl refl

-- A system on which a peer sends "ab" and then "c", and a file that holds the same.
abbrev two_blocks : System
two_blocks (Call.recv fd n ∷ Call.fopen name mode ∷ h) = answer (pos 2) (codes "ab")
two_blocks (Call.recv fd n ∷ Call.fwrite _ ∷ Call.recv fd' n' ∷ Call.fopen name mode ∷ h) =
    answer (pos 1) (codes "c")
two_blocks (Call.fread n ∷ Call.fopen name mode ∷ h) = answer (pos 2) (codes "ab")
two_blocks (Call.fread n ∷ Call.send fd _ ∷ Call.fread n' ∷ Call.fopen name mode ∷ h) =
    answer (pos 1) (codes "c")
two_blocks (Call.accept fd ∷ h) = answer (pos 8) []
two_blocks (Call.fopen name mode ∷ h) = answer (pos 1) []
two_blocks (_ ∷ h) = answer (pos 0) []
two_blocks [] = answer (pos 0) []

abbrev blocks : List Str
blocks = codes "ab" ∷ codes "c" ∷ []

abbrev stor_buffer : Str
stor_buffer = codes "STOR f\r\n"

abbrev retr_buffer : Str
retr_buffer = codes "RETR f\r\n"

stor_short : length (argument 4 stor_buffer) < 100
unfolding skip_spaces word c_string
stor_short = ground arith

retr_short : length (argument 4 retr_buffer) < 100
unfolding skip_spaces word c_string
retr_short = ground arith

stor_command-Stored_example :
    Stored client blocks [] (stor_command two_blocks client no_time 3 logged_in stor_buffer [])
stor_command-Stored_example =
    stor_command-Stored two_blocks client no_time 3 logged_in stor_buffer [] blocks refl stor_short
      refl (refl, refl, (refl, refl, refl)) (ground arith)

retr_command-Retrieved_example :
    Retrieved client
      (pos 8)
      blocks
      []
      (retr_command two_blocks client no_time 3 logged_in retr_buffer [])
retr_command-Retrieved_example =
    retr_command-Retrieved two_blocks client no_time 3 logged_in retr_buffer [] blocks refl
      retr_short refl (refl, refl, (refl, refl, refl)) (ground arith)

transfer-claims_complete_example :
    Stored client [] [] (stor_command small_system client no_time 3 logged_in stor_buffer [])
    × Retrieved client
        (pos 8)
        []
        []
        (retr_command small_system client no_time 3 logged_in stor_buffer [])
transfer-claims_complete_example =
    transfer-claims_complete small_system client no_time 3 logged_in stor_buffer [] refl stor_short
      refl refl
