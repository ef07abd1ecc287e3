-- ===== src/Ftp/Data.antt =====
-- Data connections, and the commands that open them, source/ftp.c.
pub mod Passive
pub mod Live
pub mod Restart
use ftpii.Base.{
  ℕ, ◌+◌, ◌*◌, ◌/◌, ◌%◌, ◌^◌, Bool, true, false, not, List, [], ◌∷◌, ◌++◌, none, some, Bytes, ◌==◌,
  codes, decimal, if◌then◌else◌,
}
use ftpii.Os.{S32, val, err, Call, Os, unsigned}
use ftpii.World.{
  Callback, send_nlst, send_list, send_from_file, recv_to_file, Arg, dir, file, Cleanup, M, pure,
  done, call, posix, load, ◌>>=◌, ◌>>◌,
}
use ftpii.Net.{set_blocking}
use ftpii.Vrt.{vrt_fopen, vrt_diropen, vrt_dirclose}
use ftpii.Ftp.Split.{split, field}
use ftpii.Ftp.Numbers.{scan_numbers, scan_lli}
use ftpii.Ftp.Files.{syntax_error, is_empty, first_byte}
use ftpii.Ftp.Reply.{Handler, get_errno, modify, write_reply, write_error, close_passive_socket}

abbrev pub src_port : ℕ
src_port = 20

-- `passive_port++` on a u16: the value before
abbrev pub next_passive_port : M ℕ
next_passive_port w =
    done w.ftp.passive_port
      (record w { ftp = record w.ftp { passive_port = (w.ftp.passive_port + 1) % 65536 } })

-- `(x >> k) & 0xff` at k = 8 i
abbrev pub byte_of : ℕ → ℕ → ℕ
byte_of x i = x / 256 ^ i % 256

abbrev pub comma : Bytes
comma = b',' ∷ []

unfoldable pub passive_reply : ℕ → ℕ → Bytes
passive_reply ip port =
    codes "Entering Passive Mode ("
    ++ (decimal (byte_of ip 3)
        ++ (comma
            ++ (decimal (byte_of ip 2)
                ++ (comma
                    ++ (decimal (byte_of ip 1)
                        ++ (comma
                            ++ (decimal (byte_of ip 0)
                                ++ (comma
                                    ++ (decimal (byte_of port 1)
                                        ++ (comma
                                            ++ (decimal (byte_of port 0) ++ codes ").")))))))))))

-- `sprintf(addr_str, "%u.%u.%u.%u", …)`
abbrev pub dotted : ℕ → ℕ → ℕ → ℕ → Bytes
dotted h1 h2 h3 h4 =
    decimal h1 ++ (b'.' ∷ (decimal h2 ++ (b'.' ∷ (decimal h3 ++ (b'.' ∷ decimal h4)))))

module _ ⦃os : Os⦄ where
  -- the failing branches of `ftp_PASV` behind the socket
  give_up_passive : ℕ → Bytes → M S32
  give_up_passive client msg = do close_passive_socket client; write_reply client 520 msg

  -- `ftp_PASV` from `net_listen` on, the socket bound to `port`
  unfoldable pub listen_passive : ℕ → S32 → ℕ → M S32
  unfolding give_up_passive call
  listen_passive client s port = do
    listening ← call (Call.net_listen s 1)
    elim listening.code [
      | err _ ↦ give_up_passive client (codes "Unable to listen on socket.")
      | val _ ↦ do
        ip ← call Call.net_gethostip
        write_reply client 227 (passive_reply (unsigned ip.code) port)
    ]

  unfoldable pub ftp_pasv : Handler
  unfolding give_up_passive modify call
  ftp_pasv client rest = do
    close_passive_socket client
    made ← call Call.net_socket
    modify client (λ c. record c { passive_socket = made.code })
    elim made.code [
      | err _ ↦ write_reply client 520 (codes "Unable to create listening socket.")
      | val s ↦ do
        set_blocking (val s) false
        port ← next_passive_port
        bound ← call (Call.net_bind (val s) (os.htons port))
        elim bound.code [
          | err _ ↦ give_up_passive client (codes "Unable to bind listening socket.")
          | val _ ↦ listen_passive client (val s) (os.htons port)
        ]
    ]

  unfoldable pub set_address : ℕ → List ℕ → M S32
  unfolding modify
  set_address client (h1 ∷ h2 ∷ h3 ∷ h4 ∷ p1 ∷ p2 ∷ []) = elim (os.inet_aton (dotted h1 h2 h3 h4)) [
    | none ↦ write_reply client 501 syntax_error
    | some ip ↦ do
      close_passive_socket client
      let port : ℕ = p1 % 256 * 256 + p2 % 256
      modify client (λ c. record c { address_ip = ip; address_port = os.htons port })
      write_reply client 200 (codes "PORT command successful.")
  ]
  set_address client _ = write_reply client 501 syntax_error

  unfoldable pub ftp_port : Handler
  ftp_port client portspec = elim (scan_numbers 6 portspec) [
    | none ↦ write_reply client 501 syntax_error
    | some numbers ↦ set_address client numbers
  ]

  unfoldable pub prepare_data_connection_active : ℕ → M S32
  unfolding modify call
  prepare_data_connection_active client = do
    made ← call Call.net_socket
    elim made.code [
      | err e ↦ pure (err e)
      | val s ↦ do
        set_blocking (val s) false
        bound ← call (Call.net_bind (val s) (os.htons src_port))
        elim bound.code [
          | err e ↦ do call (Call.net_close (val s)); pure (err e)
          | val _ ↦ do modify client (λ c. record c { data_socket = val s }); pure (val 0)
        ]
    ]

  unfoldable pub prepare_data_connection_passive : ℕ → M S32
  unfolding modify
  prepare_data_connection_passive client = do
    modify client (λ c. record c { data_socket = c.passive_socket })
    pure (val 0)

  -- `handler(client, callback, arg)`
  unfoldable pub prepare_handler : ℕ → M S32
  unfolding load
  prepare_handler client = do
    c ← load client
    elim c.passive_socket [
      | val _ ↦ prepare_data_connection_passive client
      | err _ ↦ prepare_data_connection_active client
    ]

  -- the branch of `prepare_data_connection` where the connection is prepared
  unfoldable pub expect_data : ℕ → Callback → Arg → Cleanup → M (Unit {0})
  unfolding modify call
  expect_data client callback arg cleanup = do
    now ← call Call.gettime
    modify client (λ c. record c {
      data_connection_connected = false;
      data_callback = some callback;
      data_connection_callback_arg = some arg;
      data_connection_cleanup = some cleanup;
      data_connection_timer = unsigned now.code + os.secs_to_ticks 30;
    })

  abbrev pub transfer_error : Bytes
  transfer_error = codes "Closing data connection, error occurred during transfer."

  unfoldable pub prepare_data_connection : ℕ → Callback → Arg → Cleanup → M S32
  prepare_data_connection client callback arg cleanup = do
    result ← write_reply client 150 (codes "Transferring data.")
    elim result [
      | err e ↦ pure (err e)
      | val _ ↦ do
        prepared ← prepare_handler client
        elim prepared [
          | err _ ↦ write_reply client 520 transfer_error
          | val n ↦ do expect_data client callback arg cleanup; pure (val n)
        ]
    ]

  -- `if (result < 0) vrt_dirclose(dir); return result;`, and so with `fclose`
  unfoldable pub close_on_error : S32 → M (Unit {0}) → M S32
  close_on_error (val n) close = pure (val n)
  close_on_error (err e) close = do close; pure (err e)

  fclose : ℕ → M (Unit {0})
  unfolding call
  fclose f = do call (Call.fclose f); pure tt

  unfoldable pub send_directory : ℕ → Callback → Bytes → M S32
  unfolding load
  send_directory client callback path = do
    c ← load client
    opened ← vrt_diropen c.cwd (if is_empty path then codes "." else path)
    elim opened [
      | none ↦ write_error client
      | some d ↦ do
        result ← prepare_data_connection client callback (dir d) Cleanup.vrt_dirclose
        close_on_error result (vrt_dirclose d)
    ]

  unfoldable pub ftp_nlst : Handler
  ftp_nlst client path = send_directory client send_nlst path

  -- Flags in front of the path are dropped.
  unfoldable pub ftp_list : Handler
  ftp_list client path =
      send_directory client send_list
        (if first_byte path == b'-' then field (split path b' ' 1) 1 else path)

  -- `restart_marker && lseek(fd, restart_marker, SEEK_SET) != restart_marker`
  unfoldable pub seek_fails : ℕ → ℕ → M Bool
  unfolding posix
  seek_fails f marker = if marker == 0 then pure false else (do
    a ← posix (Call.lseek f marker)
    elim a.code [ val n ↦ pure (not (n == marker)) | err _ ↦ pure true ])

  -- From the test of the marker on, in `ftp_RETR` and, where the file opened, in `ftp_STOR`.
  unfoldable pub transfer_file : ℕ → ℕ → Callback → M S32
  unfolding load modify fclose
  transfer_file client f callback = do
    c ← load client
    failed ← seek_fails f c.restart_marker
    lseek_error ← get_errno
    (if failed then fclose f else pure tt)
    modify client (λ d. record d { restart_marker = 0 })
    if failed then write_reply client 550 (os.strerror lseek_error) else (do
      result ← prepare_data_connection client callback (file f) Cleanup.fclose
      close_on_error result (fclose f))

  unfoldable pub ftp_retr : Handler
  unfolding load
  ftp_retr client path = do
    c ← load client
    opened ← vrt_fopen c.cwd path (codes "rb")
    elim opened [ none ↦ write_error client | some f ↦ transfer_file client f send_from_file ]

  unfoldable pub ftp_stor : Handler
  unfolding load modify
  ftp_stor client path = do
    c ← load client
    opened ← vrt_fopen c.cwd path (codes "wb")
    elim opened [
      | none ↦ do modify client (λ d. record d { restart_marker = 0 }); write_error client
      | some f ↦ transfer_file client f recv_to_file
    ]

  unfoldable pub ftp_appe : Handler
  unfolding load fclose
  ftp_appe client path = do
    c ← load client
    opened ← vrt_fopen c.cwd path (codes "ab")
    elim opened [
      | none ↦ write_error client
      | some f ↦ do
        result ← prepare_data_connection client recv_to_file (file f) Cleanup.fclose
        close_on_error result (fclose f)
    ]

  unfoldable pub ftp_rest : Handler
  unfolding modify
  ftp_rest client offset_str = elim (scan_lli offset_str) [
    | none ↦ write_reply client 501 syntax_error
    | some none ↦ write_reply client 501 syntax_error
    | some (some offset) ↦ do
      modify client (λ c. record c { restart_marker = offset })
      write_reply client 350 (codes "Restart position accepted (" ++ (decimal offset ++ codes ")."))
  ]
