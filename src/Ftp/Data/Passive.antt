-- ===== src/Ftp/Data/Passive.antt =====
-- The reply of `ftp_PASV`, source/ftp.c.
use ftpii.Base.{
  drop, List, ◌≡◌, ◌∷◌, [], some, ◌*◌, ◌%◌, ap, ◌∙◌, ◌^◌, ◌<◌, append_assoc, refl, subst, ℕ, ◌+◌,
  ◌≤◌, ◌++◌, Bytes, arith, codes, decimal, length, length-append,
}
use ftpii.Ftp.Reply.Digits.{length-decimal-le}
use ftpii.Ftp.Numbers.{scan_numbers}
use ftpii.Ftp.Numbers.RoundTrip.{scan_numbers-listed}
use ftpii.Os.{Os}
use ftpii.World.{World, Client}
use ftpii.World.Triple.{Ensures, Ensures-bind, Ensures-mono}
use ftpii.Ftp.Session.{
  Serves, Serves-trans, Serves-mono, modify-Serves, write_reply-Serves, close_passive_socket-Serves,
  without_passive,
}
use ftpii.Ftp.Data.{ftp_port, set_address, dotted, byte_of, comma, passive_reply}

-- The bytes are at most `n`.
record Short (s : Bytes) (n : ℕ) : Type 0 where
  le : length s ≤ n

-- A number of the reply, and what follows it.
number-Short :
    {n : ℕ} {rest : Bytes} (x i : ℕ) → Short rest n → Short (decimal (byte_of x i) ++ rest) (3 + n)
number-Short {rest} x i h = record {
  le = omega (
    arith,
    h.le,
    length-append (decimal (byte_of x i)) rest,
    length-decimal-le (byte_of x i) (omega arith),
  );
}

append-Short : {n : ℕ} {rest : Bytes} (s : Bytes) → Short rest n → Short (s ++ rest) (length s + n)
append-Short {rest} s h = record { le = omega (arith, h.le, length-append s rest) }

end-Short : Short (codes ").") 2
end-Short = record { le = omega arith }

passive_reply-Short : (ip port : ℕ) → Short (passive_reply ip port) 48
unfolding passive_reply
passive_reply-Short ip port = append-Short (codes "Entering Passive Mode (") (
    number-Short ip 3 (
      append-Short comma (
        number-Short ip 2 (
          append-Short comma (
            number-Short ip 1 (
              append-Short comma (
                number-Short ip 0 (
                  append-Short comma (
                    number-Short port 1
                      (append-Short comma (number-Short port 0 end-Short)))))))))))

-- Whatever the address and the port are, the reply of `ftp_PASV` and its terminator fit in the 49 bytes
-- of `reply`.
pub length-passive_reply : (ip port : ℕ) → length (passive_reply ip port) + 1 ≤ 49
length-passive_reply ip port = let h = passive_reply-Short ip port in omega (arith, h.le)

-- The bytes of an address and a port, as the reply of `ftp_PASV` lists them.
abbrev pub host_port : ℕ → ℕ → List ℕ
host_port ip port =
    byte_of ip 3 ∷ byte_of ip 2 ∷ byte_of ip 1 ∷ byte_of ip 0 ∷ byte_of port 1 ∷ byte_of port 0 ∷ []

-- Six numbers with commas between them, and what follows them.
six_listed :
    (a b c d e f rest : Bytes)
    → (a ++ (comma ++ (b ++ (comma ++ (c ++ (comma ++ (d ++ (comma ++ (e ++ (comma ++ f))))))))))
        ++ rest
      ≡ a
        ++ (comma
            ++ (b ++ (comma ++ (c ++ (comma ++ (d ++ (comma ++ (e ++ (comma ++ (f ++ rest))))))))))
six_listed a b c d e f rest = simp append_assoc refl

abbrev pub opening : Bytes
opening = codes "Entering Passive Mode ("

passive_reply-scan_numbers :
    (ip port : ℕ)
    → scan_numbers 6 (drop (length opening) (passive_reply ip port)) ≡ some (host_port ip port)
unfolding passive_reply
passive_reply-scan_numbers ip port =
    subst (λ t. scan_numbers 6 t ≡ some (host_port ip port))
      (six_listed (decimal (byte_of ip 3)) (decimal (byte_of ip 2)) (decimal (byte_of ip 1))
        (decimal (byte_of ip 0)) (decimal (byte_of port 1)) (decimal (byte_of port 0)) (codes ")."))
      (scan_numbers-listed (byte_of ip 3)
        (byte_of ip 2 ∷ byte_of ip 1 ∷ byte_of ip 0 ∷ byte_of port 1 ∷ byte_of port 0 ∷ [])
        (codes ").") (omega arith) refl)

-- The address, as `ftp_PORT` hands it to `inet_aton`.
abbrev pub dotted_of : ℕ → Bytes
dotted_of ip = dotted (byte_of ip 3) (byte_of ip 2) (byte_of ip 1) (byte_of ip 0)

-- The client, told of its host and port.
abbrev pub addressed : ⦃os : Os⦄ → ℕ → ℕ → Client → Client
addressed ⦃os⦄ ip port c = record c { address_ip = ip; address_port = os.htons port }

port_bytes : (port : ℕ) → port < 2 ^ 16 → byte_of port 1 % 256 * 256 + byte_of port 0 % 256 ≡ port
port_bytes port h = omega arith

module _ ⦃os : Os⦄ where
  set_address-Serves :
      (client ip port : ℕ) (c : Client) (w : World)
      → w.ftp.heap client ≡ some c
      → port < 2 ^ 16
      → os.inet_aton (dotted_of ip) ≡ some ip
      → Ensures
          (set_address client (host_port ip port) w)
          (λ _ w'. Serves client w w' (λ d. d ≡ addressed ip port (without_passive c)))
  unfolding set_address
  set_address-Serves client ip port c w h k a = rw a (
      Ensures-bind (close_passive_socket-Serves client c w h) λ _ w1 s.
        Ensures-bind
          (modify-Serves client
            (λ d. addressed ip (byte_of port 1 % 256 * 256 + byte_of port 0 % 256) d) s.client w1
            s.here)
          λ _ w2 t.
            Ensures-mono
              (write_reply-Serves client 200 (codes "PORT command successful.") t.client w2 t.here)
              λ _ w3 u. Serves-trans s (
                Serves-trans t (
                  Serves-mono u λ d e.
                    e
                    ∙ t.becomes
                    ∙ ap (addressed ip (byte_of port 1 % 256 * 256 + byte_of port 0 % 256))
                        s.becomes
                    ∙ ap (λ n. addressed ip n (without_passive c)) (port_bytes port k))))

  -- Where a live client sends `ftp_PORT` what `ftp_PASV` answers of an address and a port, behind its
  -- words, and `inet_aton` reads the address back from its four bytes with dots between them, the handler
  -- comes back, and the client's address is then that one, and its port that one in network order. Its
  -- passive socket is given up, as any before. Nothing else of the client differs, no other client and no
  -- static variable of ftp.c, fs.c, dvd.c and reset.c.
  pub ftp_port-passive_reply :
      (client ip port : ℕ) (c : Client) (w : World)
      → w.ftp.heap client ≡ some c
      → port < 2 ^ 16
      → os.inet_aton (dotted_of ip) ≡ some ip
      → Ensures
          (ftp_port client (drop (length opening) (passive_reply ip port)) w)
          (λ _ w'. Serves client w w' (λ d. d ≡ addressed ip port (without_passive c)))
  unfolding ftp_port
  ftp_port-passive_reply client ip port c w h k a =
      rw (passive_reply-scan_numbers ip port, ftp_port)
        (set_address-Serves client ip port c w h k a)
