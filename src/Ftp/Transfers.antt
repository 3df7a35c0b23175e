-- ===== src/Ftp/Transfers.antt =====
-- What STOR and RETR move between a file and a data connection.
use llp_filesystem.Base.{ℕ, zero, suc, ◌<◌, ◌≡◌, refl, true, false, length, ℤ, List, [], ◌∷◌, arith}
use llp_filesystem.Ftp.System.{
  Str, codes, Call, System, History, Run, ok, fault, out_of_fuel, is_error, is_zero, is_positive,
}
use llp_filesystem.Ftp.Data.{
  buffer_size, receive_loop, receive_file, send_loop, send_file, send_response,
  accept_passive_connection,
}
use llp_filesystem.Ftp.Session.{Session, stor_command, retr_command, finish_transfer, scan_word}
use llp_filesystem.Ftp.Replies.{argument, sends}

-- The blocks that `fwrite` has got, the newest first.
abbrev pub writes : History → List Str
writes [] = []
writes (Call.fwrite block ∷ h) = block ∷ writes h
writes (_ ∷ h) = writes h

-- The blocks put in front of a list one by one, so that the last of them comes first.
abbrev pub onto : List Str → List Str → List Str
onto [] rest = rest
onto (b ∷ bs) rest = onto bs (b ∷ rest)

abbrev pub sends_onto : ℤ → List Str → List (ℤ × Str) → List (ℤ × Str)
sends_onto fd [] rest = rest
sends_onto fd (b ∷ bs) rest = sends_onto fd bs ((fd, b) ∷ rest)

abbrev recv_on : ℤ → History → History
recv_on fd h = Call.recv fd buffer_size ∷ h

abbrev fread_on : History → History
fread_on h = Call.fread buffer_size ∷ h

module _ (sys : System) (fd : ℤ) where
  -- The peer sends these blocks and then no more.
  abbrev pub Arrives : List Str → History → Type 0
  Arrives [] h = is_positive (sys (recv_on fd h)).code ≡ false
  Arrives (b ∷ bs) h =
      (is_positive (sys (recv_on fd h)).code ≡ true)
      × ((sys (recv_on fd h)).bytes ≡ b)
      × Arrives bs (Call.fwrite b ∷ recv_on fd h)

  -- The file consists of these blocks.
  abbrev pub Holds : List Str → History → Type 0
  Holds [] h = is_positive (sys (fread_on h)).code ≡ false
  Holds (b ∷ bs) h =
      (is_positive (sys (fread_on h)).code ≡ true)
      × ((sys (fread_on h)).bytes ≡ b)
      × Holds bs (Call.send fd b ∷ fread_on h)

  -- The calls of the loops.
  abbrev received : List Str → History → History
  received [] h = Call.fclose ∷ recv_on fd h
  received (b ∷ bs) h = received bs (Call.fwrite b ∷ recv_on fd h)

  abbrev sent : List Str → History → History
  sent [] h = Call.fclose ∷ fread_on h
  sent (b ∷ bs) h = sent bs (Call.send fd b ∷ fread_on h)

  receive_loop-eq :
      (fuel : ℕ) (bs : List Str) (h : History)
      → length bs < fuel
      → Arrives bs h
      → receive_loop sys fuel fd h ≡ ok tt (received bs h)
  unfolding receive_loop
  receive_loop-eq zero bs h enough a = ground arith
  receive_loop-eq (suc fuel) [] h enough a = ground arith
  receive_loop-eq (suc fuel) (b ∷ bs) h enough (p, e, a) =
      ground (arith, receive_loop-eq fuel bs (Call.fwrite b ∷ recv_on fd h) (omega arith) a)

  send_loop-eq :
      (fuel : ℕ) (bs : List Str) (h : History)
      → length bs < fuel
      → Holds bs h
      → send_loop sys fuel fd h ≡ ok tt (sent bs h)
  unfolding send_loop
  send_loop-eq zero bs h enough a = ground arith
  send_loop-eq (suc fuel) [] h enough a = ground arith
  send_loop-eq (suc fuel) (b ∷ bs) h enough (p, e, a) =
      ground (arith, send_loop-eq fuel bs (Call.send fd b ∷ fread_on h) (omega arith) a)

  writes-received : (bs : List Str) (h : History) → writes (received bs h) ≡ onto bs (writes h)
  writes-received [] h = refl
  writes-received (b ∷ bs) h = writes-received bs (Call.fwrite b ∷ recv_on fd h)

  sends-received : (bs : List Str) (h : History) → sends (received bs h) ≡ sends h
  sends-received [] h = refl
  sends-received (b ∷ bs) h = sends-received bs (Call.fwrite b ∷ recv_on fd h)

  sends-sent : (bs : List Str) (h : History) → sends (sent bs h) ≡ sends_onto fd bs (sends h)
  sends-sent [] h = refl
  sends-sent (b ∷ bs) h = sends-sent bs (Call.send fd b ∷ fread_on h)

  writes-sent : (bs : List Str) (h : History) → writes (sent bs h) ≡ writes h
  writes-sent [] h = refl
  writes-sent (b ∷ bs) h = writes-sent bs (Call.send fd b ∷ fread_on h)

abbrev pub opening_stor : Str
opening_stor = codes "150 Opening data connection for STOR.\r\n"

abbrev pub opening_retr : Str
opening_retr = codes "150 Opening data connection for RETR.\r\n"

abbrev pub complete : Str
complete = codes "226 File transfer complete.\r\n"

-- The run returns; `fwrite` got the blocks in their order, and the client the two replies.
abbrev pub Stored : ℤ → List Str → History → Run (Unit {0}) → Type 0
Stored client bs h (ok _ g) =
    (writes g ≡ onto bs (writes h))
    × (sends g ≡ (client, complete) ∷ (client, opening_stor) ∷ sends h)
Stored client bs h fault = ⊥
Stored client bs h out_of_fuel = ⊥

-- The run returns; the data connection got the blocks in their order, between the two replies.
abbrev pub Retrieved : ℤ → ℤ → List Str → History → Run (Unit {0}) → Type 0
Retrieved client fd bs h (ok _ g) =
    (sends g ≡ (client, complete) ∷ sends_onto fd bs ((client, opening_retr) ∷ sends h))
    × (writes g ≡ writes h)
Retrieved client fd bs h fault = ⊥
Retrieved client fd bs h out_of_fuel = ⊥

module _ (sys : System) (client : ℤ) (time_text : ℕ → Str) (fuel : ℕ) (s : Session) (buffer : Str)
    (h : History) where
  -- The descriptor that `accept` returns, and the calls up to the opening of the file.
  abbrev pub connection : ℤ
  connection = (sys (Call.accept s.data_socket ∷ h)).code

  abbrev pub opened_stor : History
  opened_stor =
      Call.fopen (argument 4 buffer) (codes "wb")
      ∷ Call.send client opening_stor
      ∷ Call.accept s.data_socket
      ∷ h

  abbrev pub opened_retr : History
  opened_retr =
      Call.fopen (argument 4 buffer) (codes "rb")
      ∷ Call.send client opening_retr
      ∷ Call.accept s.data_socket
      ∷ h

  -- If a data connection is accepted, the name has less than 100 bytes and the file opens, STOR
  -- returns, has written the blocks that arrive until the peer ends, in their order, and has sent the
  -- client the two replies, given fuel for more rounds than there are blocks.
  pub stor_command-Stored :
      (bs : List Str)
      → is_error connection ≡ false
      → length (argument 4 buffer) < 100
      → is_zero (sys opened_stor).code ≡ false
      → Arrives sys connection bs opened_stor
      → length bs < fuel
      → Stored client bs h (stor_command sys client time_text fuel s buffer h)
  unfolding stor_command accept_passive_connection scan_word receive_file finish_transfer
      send_response
  stor_command-Stored bs accepted short opens arrives enough = ground (
    arith,
    receive_loop-eq sys connection fuel bs opened_stor enough arrives,
    writes-received sys connection bs opened_stor,
    sends-received sys connection bs opened_stor,
  )

  -- If a data connection is accepted, the name has less than 100 bytes and the file opens, RETR
  -- returns and has sent the blocks of the file on the data connection, in their order and between
  -- the two replies to the client, given fuel for more rounds than there are blocks.
  pub retr_command-Retrieved :
      (bs : List Str)
      → is_error connection ≡ false
      → length (argument 4 buffer) < 100
      → is_zero (sys opened_retr).code ≡ false
      → Holds sys connection bs opened_retr
      → length bs < fuel
      → Retrieved client connection bs h (retr_command sys client time_text fuel s buffer h)
  unfolding retr_command accept_passive_connection scan_word send_file finish_transfer send_response
  retr_command-Retrieved bs accepted short opens holds enough = ground (
    arith,
    send_loop-eq sys connection fuel bs opened_retr enough holds,
    sends-sent sys connection bs opened_retr,
    writes-sent sys connection bs opened_retr,
  )

  -- If a data connection is accepted and the name has less than 100 bytes, but the file can be
  -- opened neither for writing nor for reading, STOR and RETR move nothing, and the client is told
  -- all the same that the transfer is complete.
  pub transfer-claims_complete :
      is_error connection ≡ false
      → length (argument 4 buffer) < 100
      → is_zero (sys opened_stor).code ≡ true
      → is_zero (sys opened_retr).code ≡ true
      → Stored client [] h (stor_command sys client time_text fuel s buffer h)
        × Retrieved client connection [] h (retr_command sys client time_text fuel s buffer h)
  unfolding stor_command retr_command accept_passive_connection scan_word send_file receive_file
      finish_transfer send_response
  transfer-claims_complete accepted short stor_fails retr_fails = (ground arith, ground arith)
