-- ===== src/Tests/Toy.antt =====
-- A toy in place of the `snow` crate, without secrecy: a message is its plaintext with a tag of 16
-- bytes that shows the nonce, and the first handshake message is the sender's public key.
use soulvpn.Base.{
  ℕ, ◌+◌, ◌-◌, ◌%◌, ◌≤◌, ◌≡◌, refl, false, Option, some, List, [], ◌∷◌, ◌++◌, length, take, drop,
  replicate, list_beq, list_beq_iff, ltb, if◌then◌else◌, Result, ok, err, bail, arith,
  length-append, take-append, drop-append,
}
use soulvpn.Crypto.Noise.{Noise, NoiseLaws}

pub record Toy : Type 0 where
  pub sending : ℕ
  pub receiving : ℕ
  pub remote : Option (List ℕ)

abbrev tag : ℕ → List ℕ
tag c = c % 256 ∷ replicate 15 0

abbrev write : Toy → List ℕ → ℕ → Toy × Result (List ℕ)
write t plain room =
    if ltb room (length plain + 16)
    then (t, err (bail "room"))
    else (record t { sending = t.sending + 1 }, ok (plain ++ tag t.sending))

unfoldable pub read_body : ℕ → List ℕ → ℕ → Result (List ℕ)
read_body nonce ct room =
    let size = length ct - 16 in
    if ltb room size
    then err (bail "room")
    else if list_beq (drop size ct) (tag nonce)
    then ok (take size ct)
    else err (bail "tag")

abbrev pub toy : Noise
toy = record {
  Transport = Toy;
  Handshake = List ℕ;
  write_message = write;
  set_receiving_nonce = λ t c. record t { receiving = c };
  read_message = λ t ct room. (t, read_body t.receiving ct room);
  get_remote_static = λ t. t.remote;
  build_initiator = λ private server_public. ok server_public;
  build_responder = λ private. ok [];
  handshake_write = λ h payload room. (h, ok (7 ∷ []));
  handshake_read = λ h msg room. (msg, ok []);
  into_transport_mode = λ h. ok (record { sending = 0; receiving = 0; remote = some h });
}

pub read_body-tag :
    (c : ℕ) (plain : List ℕ) (room : ℕ)
    → length plain ≤ room
    → read_body c (plain ++ tag c) room ≡ ok plain
unfolding read_body
read_body-tag c plain room h =
    let size : length (plain ++ tag c) - 16 ≡ length plain =
      omega (arith, length-append plain (tag c)) in
    let body = take-append (length plain) plain (tag c) refl in
    let rest = drop-append (length plain) plain (tag c) refl in
    let same = (list_beq_iff (tag c) (tag c)).1 refl in
    let fits : ltb room (length plain) ≡ false = ground arith in
    rw (size, fits, rest, same, body) refl

abbrev pub toy_laws : NoiseLaws toy
toy_laws = record {
  Linked = λ a c b. a.sending ≡ c;
  Sealed = λ b c plain ct. ct ≡ plain ++ tag c;
  write_seals = λ a b c plain room linked h small fits.
      (record a { sending = a.sending + 1 }, plain ++ tag c, ground arith, ground arith, refl);
  sealed_length = λ b c plain ct sealed. rw sealed (length-append plain (tag c));
  sealed_opens = λ b c plain ct room sealed fits. rw sealed (read_body-tag c plain room fits);
  sealed_read = λ b c plain ct k other room sealed. sealed;
}
