-- ===== src/Ftp/Sockets.antt =====
-- The data sockets: what a failed opening leaves behind, and a fault of LIST.
use llp_filesystem.Base.{ℕ, ◌≡◌, ◌⊎◌, true, false, ℤ, failure, [], ◌∷◌, arith}
use llp_filesystem.Ftp.System.{
  Str, codes, Call, System, History, Run, ok, fault, out_of_fuel, is_error, is_zero,
}
use llp_filesystem.Ftp.Data.{
  open_passive_data_socket, accept_passive_connection, get_listing, send_response,
}
use llp_filesystem.Ftp.Session.{Session, list_command}

-- The newest call closes the socket.
abbrev pub ClosedLast : ℤ → History → Type 0
ClosedLast fd [] = ⊥
ClosedLast fd (c ∷ rest) = c ≡ Call.close fd

-- The run returns with a socket that is the answer to `socket` and was not closed, or with -1; then
-- there was no socket or it was closed last.
abbrev pub NoLeak : System → History → Run (ℤ × ℕ) → Type 0
NoLeak sys h (ok (fd, _) g) =
    let opened = sys (Call.socket ∷ h) in
    ((fd ≡ opened.code)
      × (is_error fd ≡ false)
      × (g ≡ Call.getsockname fd ∷ Call.listen fd 1 ∷ Call.bind fd ∷ Call.socket ∷ h))
    ⊎ ((fd ≡ failure) × ((is_error opened.code ≡ true) ⊎ ClosedLast opened.code g))
NoLeak sys h fault = ⊥
NoLeak sys h out_of_fuel = ⊥

-- `open_passive_data_socket` returns the new socket, bound and listening, or -1; when it fails behind
-- `socket`, its last call closes the socket.
pub open_passive_data_socket-NoLeak :
    (sys : System) (h : History) → NoLeak sys h (open_passive_data_socket sys h)
unfolding open_passive_data_socket
open_passive_data_socket-NoLeak sys h = ground arith

-- What LIST has done when it opens the directory.
abbrev pub listing_start : ℤ → Session → History → History
listing_start client s h =
    Call.send client (codes "150 Opening data connection for directory listing.\r\n")
    ∷ Call.accept s.data_socket
    ∷ h

-- When `accept` gives LIST a data connection and the directory "." cannot be opened behind the reply
-- that announces the listing, LIST frees a string that is not on the heap.
pub list_command-fault :
    (sys : System) (client : ℤ) (time_text : ℕ → Str) (fuel : ℕ) (s : Session) (h : History)
    → is_error (sys (Call.accept s.data_socket ∷ h)).code ≡ false
    → is_zero (sys (Call.opendir (codes ".") ∷ listing_start client s h)).code ≡ true
    → list_command sys client time_text fuel s h ≡ fault
unfolding list_command accept_passive_connection get_listing send_response
list_command-fault sys client time_text fuel s h accepted missing =
    ground (arith, accepted, missing)
