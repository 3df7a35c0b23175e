-- ===== src/Nfs/Read.antt =====
-- NFS/read.c: a part of a file. The calls that print are left out.
use llp_filesystem.Base.{
  ℕ, ◌%◌, ◌^◌, Option, none, some, [], ◌∷◌, ℤ, pos, length, is_failure, if◌then◌else◌,
}
use llp_filesystem.Nfs.Types.{Opaque, Read3res}
use llp_filesystem.Nfs.System.{Str, Call, System, Io, pure, ◌>>=◌, ◌>>◌, call}

abbrev pub nfs3err_io : ℤ
nfs3err_io = pos 5

abbrev pub nfs3_ok : ℤ
nfs3_ok = pos 0

module _ (sys : System) where
  unfoldable pub open_file : Str → Io ℤ
  open_file file_path = call (sys.fd_answer) (Call.open_rdonly file_path)

  -- The bytes read; `none` for -1.
  unfoldable pub read_file_chunk : ℤ → ℤ → ℕ → Io (Option Str)
  read_file_chunk fd offset chunk_size = call (sys.pread_answer) (Call.pread fd chunk_size offset)

  abbrev pub with_status : ℤ → Read3res → Read3res
  with_status status r = record r { status = status }

  abbrev pub with_data : ℕ → ℤ → Opaque → Read3res → Read3res
  with_data count eof bytes r = record r {
    status = nfs3_ok;
    resok = record r.resok { count = count; eof = eof; bytes = bytes };
  }

  -- The cases of `bytes_read`.
  unfoldable pub store_chunk : Option Str → Read3res → Io Read3res
  store_chunk none result = pure (with_status nfs3err_io result)
  store_chunk (some []) result =
      pure (with_data 0 (pos 1) (record { data_len = 0; data_val = [] }) result)
  store_chunk (some (b ∷ bs)) result =
      let n = length (b ∷ bs) in
      call (sys.malloc_answer) (Call.malloc n) >>= λ allocated. pure (
        if allocated
        then with_data n (pos 0) (record { data_len = n % 2 ^ 32; data_val = b ∷ bs }) result
        else with_status nfs3err_io
            (with_data n (pos 0) (record { data_len = n % 2 ^ 32; data_val = [] }) result))

  unfoldable pub close_fd : ℤ → Io (Unit {0})
  close_fd fd = call (λ h. tt) (Call.close fd)

  unfoldable pub fill_read3res_stream : Str → ℤ → ℕ → Read3res → Io Read3res
  fill_read3res_stream file_path offset count result = open_file file_path >>= λ fd.
      if is_failure fd
      then pure (with_status nfs3err_io result)
      else (call (sys.lseek_answer) (Call.lseek fd offset) >>= λ place.
          if is_failure place
          then (close_fd fd >> pure (with_status nfs3err_io result))
          else (call (sys.malloc_answer) (Call.malloc count) >>= λ allocated.
              if allocated
              then (read_file_chunk fd offset count >>= λ bytes_read.
                  store_chunk bytes_read result >>= λ result'. close_fd fd >> pure result')
              else (close_fd fd >> pure (with_status nfs3err_io result))))
