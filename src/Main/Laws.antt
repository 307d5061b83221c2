-- ===== src/Main/Laws.antt =====
-- What `genkey` prints and writes can be used.
use soulvpn.Base.{
  ℕ, ◌≡◌, refl, Bool, true, false, none, some, List, [], ◌∷◌, ◌++◌, length, ◌==◌, anyb, ◌||◌, ok,
  err, bail, text_eq,
}
use soulvpn.Config.{decode_key, load_key_material}
use soulvpn.Config.Chars.{Text}
use soulvpn.Config.KeyFiles.{key_line, priv_path}
use soulvpn.Config.KeyFiles.Laws.{IsPlain, KeyStoreLaws, no_line_end, trim-append}
use soulvpn.Main.{Program, Shell, World, cut_line, encode_key, has_dots, genkey, pubkey}

cut_line-IsPlain : (s : Text) → IsPlain s → cut_line (s ++ 10 ∷ []) ≡ (s ++ 10 ∷ [], [])
cut_line-IsPlain [] plain = refl
cut_line-IsPlain (c ∷ cs) plain =
    let (lf, cr) = no_line_end c plain.0 in rw (lf, cut_line-IsPlain cs plain.1) refl

module _ (p : Program) (laws : KeyStoreLaws p.store) where
  decode_line :
      (w : World p) (key : List ℕ)
      → length key ≡ 32
      → decode_key (p.store.env w) (encode_key p key ++ 10 ∷ []) ≡ ok key
  unfolding decode_key
  decode_line w key size =
      rw
        (
          trim-append (encode_key p key) (laws.encode64-IsPlain key),
          laws.base64-encode64 w key,
          size,
        )
        refl

  -- `soulvpn genkey | soulvpn pubkey` prints on its standard output exactly what `genkey` prints on its
  -- standard error: the public key. What is relied on is that a new key pair has a private key of 32
  -- bytes and the public key that is computed of it, and the laws of `base64`.
  pub pubkey-genkey :
      (name input : Text) (w w' w'' : World p) (privk pubk : List ℕ)
      → p.generate_keypair w ≡ (w', ok (privk, pubk))
      → length privk ≡ 32
      → p.public_key privk ≡ pubk
      → let (made, r) =
          genkey p none name (record { world = w; stdin = input; stdout = []; stderr = [] }) in
        let (shown, r') =
          pubkey p none (record { world = w''; stdin = made.stdout; stdout = []; stderr = [] }) in
        (r ≡ ok tt)
        × (r' ≡ ok tt)
        × (made.stdout ≡ key_line p.store privk)
        × (made.stderr ≡ key_line p.store pubk)
        × (shown.stdout ≡ made.stderr)
  unfolding genkey pubkey
  pubkey-genkey name input w w' w'' privk pubk made size public =
      let line = cut_line-IsPlain (encode_key p privk) (laws.encode64-IsPlain privk) in
      simp (made, line, decode_line w'' privk size, public) (refl, refl, refl, refl, refl)

  abbrev invalid_name : Text → Bool
  invalid_name name = anyb (λ c. c == 47) name || has_dots name

  -- What `genkey --write-dir` leaves, where it succeeds.
  abbrev pub Written : Text → Text → List ℕ → Shell (World p) → Shell (World p) → Type 0
  Written dir name privk before after =
      let priv = priv_path p.store dir name in
      (invalid_name name ≡ false)
      × (load_key_material (p.store.env after.world) none (some priv) ≡ ok privk)
      × (after.stdout ≡ before.stdout ++ (priv ++ 10 ∷ []))

  -- With a name that has a slash or two dots in a row, `genkey --write-dir` fails, prints nothing and
  -- writes no file.
  pub genkey_refused :
      (dir name : Text) (w' : World p) (privk pubk : List ℕ) (before : Shell (World p))
      → p.generate_keypair before.world ≡ (w', ok (privk, pubk))
      → invalid_name name ≡ true
      → genkey p (some dir) name before
        ≡ (record before { world = w' }, err (bail "invalid key name"))
  unfolding genkey
  genkey_refused dir name w' privk pubk before made bad = simp (made, bad) refl
