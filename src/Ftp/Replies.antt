-- ===== src/Ftp/Replies.antt =====
-- What each command of a session sends to the client.
use llp_filesystem.Base.{
  ℕ, ◌<◌, ◌≡◌, refl, Bool, true, false, length, ℤ, List, [], ◌∷◌, arith, drop,
}
use llp_filesystem.Fat.Path.{c_string}
use llp_filesystem.Ftp.System.{
  Str, Call, System, History, Io, ok, fault, pure, Run, out_of_fuel, and_then, word, skip_spaces,
}
use llp_filesystem.Ftp.Data.{
  send_response, change_directory, create_directory, remove_directory, get_server_ip_address,
  get_data_port_high, get_data_port_low, open_passive_data_socket,
}
use llp_filesystem.Ftp.Session.{
  Session, port_command, pasv_command, epsv_command, type_command, user_command, pass_command,
  cwd_command, cdup_command, rmd_command, mkd_command, pwd_command, change_to, scan_word,
}
use llp_filesystem.Ftp.Dispatch.{
  Command, port, pasv, stor, retr, epsv, list, type, user, pass, cwd, cdup, rmd, mkd, pwd, quit,
  unknown, perform,
}

-- The calls of a history that are sends, with the newest first.
abbrev pub sends : History → List (ℤ × Str)
sends [] = []
sends (Call.send fd text ∷ h) = (fd, text) ∷ sends h
sends (_ ∷ h) = sends h

-- The argument behind the command word.
abbrev pub argument : ℕ → Str → Str
argument n buffer = word (skip_spaces (c_string (drop n buffer)))

-- The word that a command reads into an array of 100 bytes, for the commands that move no data.
abbrev pub argument_of : Command → Str → Str
argument_of user buffer = argument 4 buffer
argument_of pass buffer = argument 4 buffer
argument_of cwd buffer = argument 3 buffer
argument_of rmd buffer = argument 3 buffer
argument_of mkd buffer = argument 3 buffer
argument_of _ buffer = []

-- The commands that move no data.
abbrev pub is_transfer : Command → Bool
is_transfer stor = true
is_transfer retr = true
is_transfer list = true
is_transfer _ = false

-- The sends are those before, and one more to the client.
abbrev pub OneMore : ℤ → List (ℤ × Str) → List (ℤ × Str) → Type 0
OneMore client before [] = ⊥
OneMore client before ((fd, text) ∷ rest) = (fd ≡ client) × (rest ≡ before)

-- The run returns, and has sent one text, to the client.
abbrev pub Answered : {A : Type 0} → ℤ → History → Run A → Type 0
Answered client h (ok a g) = OneMore client (sends h) (sends g)
Answered client h fault = ⊥
Answered client h out_of_fuel = ⊥

-- The run returns, and has sent nothing.
abbrev Quiet : {A : Type 0} → History → Run A → Type 0
Quiet h (ok a g) = sends g ≡ sends h
Quiet h fault = ⊥
Quiet h out_of_fuel = ⊥

module _ {A B : Type 0} (client : ℤ) (h : History) where
  and_then-Answered :
      (r : Run A) (k : A → Io B)
      → Quiet h r
      → ((a : A) (g : History) → sends g ≡ sends h → Answered client h (k a g))
      → Answered client h (and_then r k)
  and_then-Answered (ok a g) k q rest = rest a g q
  and_then-Answered fault k q rest = absurd q
  and_then-Answered out_of_fuel k q rest = absurd q

  pure-Answered :
      (r : Run A) (f : A → B)
      → Answered client h r
      → Answered client h (and_then r (λ a. pure (f a)))
  pure-Answered (ok a g) f q = q
  pure-Answered fault f q = absurd q
  pure-Answered out_of_fuel f q = absurd q

module _ (sys : System) (client : ℤ) (time_text : ℕ → Str) (fuel : ℕ) where
  open_passive_data_socket-Quiet : (h : History) → Quiet h (open_passive_data_socket sys h)
  unfolding open_passive_data_socket
  open_passive_data_socket-Quiet h = ground arith

  pasv-Answered :
      (s : Session) (h : History) → Answered client h (pasv_command sys client time_text fuel s h)
  unfolding pasv_command get_server_ip_address get_data_port_high get_data_port_low send_response
  pasv-Answered s h =
      and_then-Answered client h (open_passive_data_socket sys h) _
        (open_passive_data_socket-Quiet h) λ a g e. ground arith

  epsv-Answered :
      (s : Session) (h : History) → Answered client h (epsv_command sys client time_text fuel s h)
  unfolding epsv_command send_response
  epsv-Answered s h =
      and_then-Answered client h (open_passive_data_socket sys h) _
        (open_passive_data_socket-Quiet h) λ a g e. ground arith

  rmd-Answered :
      (d buffer : Str) (h : History)
      → length (argument 3 buffer) < 100
      → Answered client h (rmd_command sys client time_text fuel d buffer h)
  unfolding rmd_command scan_word change_directory remove_directory send_response
  rmd-Answered d buffer h short = ground arith

  mkd-Answered :
      (d buffer : Str) (h : History)
      → length (argument 3 buffer) < 100
      → Answered client h (mkd_command sys client time_text fuel d buffer h)
  unfolding mkd_command scan_word change_directory create_directory send_response
  mkd-Answered d buffer h short = ground arith

  simple-Answered :
      (s : Session) (d buffer : Str) (h : History)
      → Answered client h (port_command sys client time_text fuel h)
        × Answered client h (type_command sys client time_text fuel buffer h)
        × Answered client h (cdup_command sys client time_text fuel h)
        × Answered client h (pwd_command sys client time_text fuel d h)
  unfolding port_command type_command cdup_command pwd_command change_to change_directory
      send_response
  simple-Answered s d buffer h = (ground arith, ground arith, ground arith, ground arith)

  scanning-Answered :
      (s : Session) (buffer : Str) (h : History)
      → length (argument 4 buffer) < 100
      → Answered client h (user_command sys client time_text fuel s buffer h)
        × Answered client h (pass_command sys client time_text fuel s buffer h)
  unfolding user_command pass_command scan_word send_response
  scanning-Answered s buffer h short = (ground arith, ground arith)

  cwd-Answered :
      (buffer : Str) (h : History)
      → length (argument 3 buffer) < 100
      → Answered client h (cwd_command sys client time_text fuel buffer h)
  unfolding cwd_command change_to scan_word change_directory send_response
  cwd-Answered buffer h short = ground arith

  -- A command that moves no data and whose argument, if it takes one, has less than 100 bytes,
  -- returns, and sends the client exactly one reply and nothing else.
  pub perform-Answered :
      (s : Session) (d buffer : Str) (c : Command) (h : History)
      → is_transfer c ≡ false
      → length (argument_of c buffer) < 100
      → Answered client h (perform sys client time_text fuel s d buffer c h)
  unfolding perform
  perform-Answered s d buffer port h t short =
      pure-Answered client h (port_command sys client time_text fuel h) (λ _. (s, true))
        (simple-Answered s d buffer h).0
  perform-Answered s d buffer pasv h t short =
      pure-Answered client h (pasv_command sys client time_text fuel s h) (λ s. (s, true))
        (pasv-Answered s h)
  perform-Answered s d buffer stor h t short = cc
  perform-Answered s d buffer retr h t short = cc
  perform-Answered s d buffer epsv h t short =
      pure-Answered client h (epsv_command sys client time_text fuel s h) (λ s. (s, true))
        (epsv-Answered s h)
  perform-Answered s d buffer list h t short = cc
  perform-Answered s d buffer type h t short =
      pure-Answered client h (type_command sys client time_text fuel buffer h) (λ _. (s, true))
        (simple-Answered s d buffer h).1
  perform-Answered s d buffer user h t short =
      pure-Answered client h (user_command sys client time_text fuel s buffer h) (λ s. (s, true))
        (scanning-Answered s buffer h short).0
  perform-Answered s d buffer pass h t short =
      pure-Answered client h (pass_command sys client time_text fuel s buffer h) (λ s. (s, true))
        (scanning-Answered s buffer h short).1
  perform-Answered s d buffer cwd h t short =
      pure-Answered client h (cwd_command sys client time_text fuel buffer h) (λ _. (s, true))
        (cwd-Answered buffer h short)
  perform-Answered s d buffer cdup h t short =
      pure-Answered client h (cdup_command sys client time_text fuel h) (λ _. (s, true))
        (simple-Answered s d buffer h).2
  perform-Answered s d buffer rmd h t short =
      pure-Answered client h (rmd_command sys client time_text fuel d buffer h) (λ _. (s, true))
        (rmd-Answered d buffer h short)
  perform-Answered s d buffer mkd h t short =
      pure-Answered client h (mkd_command sys client time_text fuel d buffer h) (λ _. (s, true))
        (mkd-Answered d buffer h short)
  perform-Answered s d buffer pwd h t short =
      pure-Answered client h (pwd_command sys client time_text fuel d h) (λ _. (s, true))
        (simple-Answered s d buffer h).3
  perform-Answered s d buffer quit h t short = unfold send_response in (refl, refl)
  perform-Answered s d buffer unknown h t short = unfold send_response in (refl, refl)
