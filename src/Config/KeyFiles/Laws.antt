-- ===== src/Config/KeyFiles/Laws.antt =====
-- The key files that are written are read back.
use soulvpn.Base.{
  ℕ, ◌≡◌, ◌≢◌, refl, sym, ap, ◌∙◌, Bool, true, false, List, [], ◌∷◌, ◌++◌, length, ◌==◌, some, none,
  ok, String, arith,
}
use soulvpn.Base.Actions.{Action, ◌>>◌, pure, and_then-ok, Returns, then-Returns, pure-Returns}
use soulvpn.Config.{decode_key, check_key_file_permissions, load_key_material}
use soulvpn.Config.Chars.{
  Text, is_whitespace, line_of, first_line, trim_start, trim_end, trim, keep_unless_blank,
}
use soulvpn.Config.KeyFiles.{
  KeyStore, done, key_line, priv_path, pub_path, create_dir, write_key, lock, write_keypair_files,
}

-- A text without white space.
abbrev pub IsPlain : Text → Type 0
IsPlain [] = Unit
IsPlain (c ∷ cs) = (is_whitespace c ≡ false) × IsPlain cs

pub no_line_end : (c : ℕ) → is_whitespace c ≡ false → ((c == 10) ≡ false) × ((c == 13) ≡ false)
no_line_end c plain = (ground arith, ground arith)

line_of-append : (s : Text) → IsPlain s → line_of (s ++ 10 ∷ []) ≡ s
line_of-append [] plain = refl
line_of-append (c ∷ []) plain = let (lf, cr) = no_line_end c plain.0 in rw (lf, cr) refl
line_of-append (c ∷ d ∷ cs) plain =
    let (lf, cr) = no_line_end c plain.0 in
    rw (lf, cr) (ap (◌∷◌ c) (line_of-append (d ∷ cs) plain.1))

first_line-append : (s : Text) → IsPlain s → first_line (s ++ 10 ∷ []) ≡ some s
first_line-append [] plain = refl
first_line-append (c ∷ cs) plain = ap some (line_of-append (c ∷ cs) plain)

keep_unless_blank_lem :
    (c : ℕ) (cs : Text) → is_whitespace c ≡ false → keep_unless_blank c cs ≡ c ∷ cs
keep_unless_blank_lem c [] plain = rw plain refl
keep_unless_blank_lem c (d ∷ cs) plain = refl

trim_end-IsPlain : (s : Text) → IsPlain s → trim_end s ≡ s
trim_end-IsPlain [] plain = refl
trim_end-IsPlain (c ∷ cs) plain =
    ap (keep_unless_blank c) (trim_end-IsPlain cs plain.1) ∙ keep_unless_blank_lem c cs plain.0

trim_start-IsPlain : (s : Text) → IsPlain s → trim_start s ≡ s
trim_start-IsPlain [] plain = refl
trim_start-IsPlain (c ∷ cs) plain = rw (plain.0) refl

trim-IsPlain : (s : Text) → IsPlain s → trim s ≡ s
trim-IsPlain s plain = ap trim_end (trim_start-IsPlain s plain) ∙ trim_end-IsPlain s plain

trim_start-append :
    (s : Text) → IsPlain s → trim_end (trim_start (s ++ 10 ∷ [])) ≡ trim_end (s ++ 10 ∷ [])
trim_start-append [] plain = refl
trim_start-append (c ∷ cs) plain = rw (plain.0) refl

trim_end-append : (s : Text) → IsPlain s → trim_end (s ++ 10 ∷ []) ≡ s
trim_end-append [] plain = refl
trim_end-append (c ∷ cs) plain =
    ap (keep_unless_blank c) (trim_end-append cs plain.1) ∙ keep_unless_blank_lem c cs plain.0

-- A line feed at the end is trimmed.
pub trim-append : (s : Text) → IsPlain s → trim (s ++ 10 ∷ []) ≡ s
trim-append s plain = trim_start-append s plain ∙ trim_end-append s plain

-- What is relied on of files, their modes, and `base64`: what is written is read back, a mode that is set
-- is the mode, and other files stay as they are; an encoded key has no white space and is decoded again.
pub record KeyStoreLaws (store : KeyStore) : Type 0 where
  pub read-write :
      (w : store.World) (p t : Text)
      → (store.write w p t).1 ≡ true
      → (store.env (store.write w p t).0).read_to_string p ≡ ok t
  pub read-write_other :
      (w : store.World) (p q t : Text)
      → p ≢ q
      → (store.env (store.write w p t).0).read_to_string q ≡ (store.env w).read_to_string q
  pub mode-write_other :
      (w : store.World) (p q t : Text)
      → p ≢ q
      → (store.env (store.write w p t).0).mode_of q ≡ (store.env w).mode_of q
  pub mode-set_mode :
      (w : store.World) (p : Text) (mode : ℕ)
      → (store.set_mode w p mode).1 ≡ true
      → (store.env (store.set_mode w p mode).0).mode_of p ≡ ok mode
  pub read-set_mode :
      (w : store.World) (p q : Text) (mode : ℕ)
      → (store.env (store.set_mode w p mode).0).read_to_string q ≡ (store.env w).read_to_string q
  pub base64-encode64 :
      (w : store.World) (key : List ℕ) → (store.env w).base64 (store.encode64 key) ≡ ok key
  pub encode64-IsPlain : (key : List ℕ) → IsPlain (store.encode64 key)

pub write_keypair_files-Returns :
    (store : KeyStore) (dir prefix : Text) (privk pubk : List ℕ)
    → Returns
        (priv_path store dir prefix, pub_path store dir prefix)
        (write_keypair_files store dir prefix privk pubk)
unfolding write_keypair_files
write_keypair_files-Returns store dir prefix privk pubk =
    let paths : Text × Text = (priv_path store dir prefix, pub_path store dir prefix) in
    let end : Action store.World (Text × Text) = pure paths in
    let s4 = write_key store (pub_path store dir prefix) pubk in
    let s3 = lock store (priv_path store dir prefix) in
    let s2 = write_key store (priv_path store dir prefix) privk in
    then-Returns paths (create_dir store dir) (s2 >> (s3 >> (s4 >> end))) (
      then-Returns paths s2 (s3 >> (s4 >> end))
        (then-Returns paths s3 (s4 >> end) (then-Returns paths s4 end (pure-Returns paths))))

module _ {store : KeyStore} (laws : KeyStoreLaws store) where
  -- A file of mode 0600 with the line of a key.
  load_key_line :
      (w : store.World) (path : Text) (key : List ℕ)
      → length key ≡ 32
      → (store.env w).mode_of path ≡ ok 384
      → (store.env w).read_to_string path ≡ ok (key_line store key)
      → load_key_material (store.env w) none (some path) ≡ ok key
  unfolding load_key_material check_key_file_permissions decode_key
  load_key_line w path key size mode text =
      let coded = store.encode64 key in
      let plain = laws.encode64-IsPlain key in
      rw (mode, text)
        (rw (first_line-append coded plain) (
          rw
            (
              trim_start-IsPlain coded plain,
              trim_end-IsPlain coded plain,
              trim_start-IsPlain coded plain,
              trim_end-IsPlain coded plain,
              laws.base64-encode64 w key,
              size,
            )
            refl))

  done-ok :
      (message : String) (r : store.World × Bool) (done' : Unit {0})
      → (done store message r).1 ≡ ok done'
      → r.1 ≡ true
  done-ok message (w, true) x h = refl
  done-ok message (w, false) x h = cc

  -- Writing a key pair, where it succeeds, makes a private key file from which `load_key_material` loads
  -- the private key again. The two paths must differ.
  pub load_key_material-write_keypair_files :
      (dir prefix : Text) (privk pubk : List ℕ) (w w' : store.World) (paths : Text × Text)
      → length privk ≡ 32
      → priv_path store dir prefix ≢ pub_path store dir prefix
      → write_keypair_files store dir prefix privk pubk w ≡ (w', ok paths)
      → load_key_material (store.env w') none (some (priv_path store dir prefix)) ≡ ok privk
  unfolding write_keypair_files
  load_key_material-write_keypair_files dir prefix privk pubk w w' paths size apart run =
      let priv = priv_path store dir prefix in
      let public = pub_path store dir prefix in
      let end : Action store.World (Text × Text) = pure (priv, public) in
      let s4 = write_key store public pubk in
      let s3 = lock store priv in
      let s2 = write_key store priv privk in
      let s1 = create_dir store dir in
      let r1 = and_then-ok (s1 w) (λ x. s2 >> (s3 >> (s4 >> end))) w' paths run in
      let w1 = (store.create_dir_all w dir).0 in
      let r2 = and_then-ok (s2 w1) (λ x. s3 >> (s4 >> end)) w' paths r1.2 in
      let w2 = (store.write w1 priv (key_line store privk)).0 in
      let r3 = and_then-ok (s3 w2) (λ x. s4 >> end) w' paths r2.2 in
      let w3 = (store.set_mode w2 priv 384).0 in
      let r4 = and_then-ok (s4 w3) (λ x. end) w' paths r3.2 in
      let w4 = (store.write w3 public (key_line store pubk)).0 in
      let world : w4 ≡ w' = ap (λ r. r.0) r4.2 in
      let wrote = done-ok "write" (store.write w1 priv (key_line store privk)) r2.0 r2.1 in
      let locked = done-ok "set mode" (store.set_mode w2 priv 384) r3.0 r3.1 in
      let other : public ≢ priv = λ same. apart (sym same) in
      let mode =
        laws.mode-write_other w3 public priv (key_line store pubk) other
        ∙ laws.mode-set_mode w2 priv 384 locked in
      let text =
        laws.read-write_other w3 public priv (key_line store pubk) other
        ∙ laws.read-set_mode w2 priv priv 384
        ∙ laws.read-write w1 priv (key_line store privk) wrote in
      rw (← world) (load_key_line w4 priv privk size mode text)
