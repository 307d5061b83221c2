-- ===== src/Tests/KeyRuns.antt =====
-- A run of the key files of src/config.rs.
use soulvpn.Base.{
  ℕ, ◌+◌, ◌-◌, ◌≡◌, ◌≢◌, refl, ap, ap₂, ◌∙◌, true, false, Option, none, some, List, [], ◌∷◌, ◌++◌,
  map, replicate, Result, ok, err, foreign, codes, Map, lookup, insert, lookup-insert, bytes_eq,
  list_beq, list_beq_iff, arith,
}
use soulvpn.Config.Chars.{Text}
use soulvpn.Config.KeyFiles.{KeyStore, priv_path, pub_path}
use soulvpn.Config.KeyFiles.Laws.{IsPlain, KeyStoreLaws}
use soulvpn.Tests.Host.{beq_refl, ne-beq}

pub record Files : Type 0 where
  pub texts : Map Text Text
  pub modes : Map Text ℕ

abbrev found : {A : Type 0} → Option A → Result A
found none = err (foreign 2)
found (some a) = ok a

-- A new file may be read by all.
abbrev mode_after : Text → Option ℕ → Map Text ℕ → Map Text ℕ
mode_after p none modes = insert p 420 modes
mode_after p (some mode) modes = modes

-- In place of base64, a letter for each byte.
abbrev pub store : KeyStore
store = record {
  World = Files;
  env = λ w. record {
    read_to_string = λ p. found (lookup p w.texts);
    mode_of = λ p. found (lookup p w.modes);
    base64 = λ s. ok (map (λ (c : ℕ). c - 20000) s);
    server_toml = λ s. err (foreign 0);
    client_toml = λ s. err (foreign 0);
  };
  join = λ dir name. dir ++ 47 ∷ name;
  encode64 = λ key. map (λ (b : ℕ). b + 20000) key;
  create_dir_all = λ w dir. (w, true);
  write = λ w p t. (
    record w { texts = insert p t w.texts; modes = mode_after p (lookup p w.modes) w.modes },
    true,
  );
  set_mode = λ w p mode. (record w { modes = insert p mode w.modes }, true);
}

get-insert : {V : Type 0} (p : Text) (v : V) (m : Map Text V) → lookup p (insert p v m) ≡ some v
get-insert p v m = lookup-insert p p v m ∙ rw (beq_refl bytes_eq p) refl

get-insert_ne :
    {V : Type 0} (p q : Text) (v : V) (m : Map Text V)
    → p ≢ q
    → lookup q (insert p v m) ≡ lookup q m
get-insert_ne p q v m h = lookup-insert p q v m ∙ rw (ne-beq bytes_eq p q h) refl

shifted : (key : List ℕ) → map (λ (c : ℕ). c - 20000) (map (λ (b : ℕ). b + 20000) key) ≡ key
shifted [] = refl
shifted (b ∷ bs) = ap₂ (λ (x : ℕ) xs. x ∷ xs) (omega arith) (shifted bs)

letters-IsPlain : (key : List ℕ) → IsPlain (map (λ (b : ℕ). b + 20000) key)
letters-IsPlain [] = tt
letters-IsPlain (b ∷ bs) = (ground arith, letters-IsPlain bs)

other_mode :
    (p q : Text) (o : Option ℕ) (modes : Map Text ℕ)
    → p ≢ q
    → lookup q (mode_after p o modes) ≡ lookup q modes
other_mode p q none modes h = get-insert_ne p q 420 modes h
other_mode p q (some mode) modes h = refl

pub store_laws : KeyStoreLaws store
store_laws = record {
  read-write = λ w p t done. ap found (get-insert p t w.texts);
  read-write_other = λ w p q t h. ap found (get-insert_ne p q t w.texts h);
  mode-write_other = λ w p q t h. ap found (other_mode p q (lookup p w.modes) w.modes h);
  mode-set_mode = λ w p mode done. ap found (get-insert p mode w.modes);
  read-set_mode = λ w p q mode. refl;
  base64-encode64 = λ w key. ap ok (shifted key);
  encode64-IsPlain = λ key. letters-IsPlain key;
}

abbrev pub key : List ℕ
key = replicate 32 7

abbrev pub empty : Files
empty = record { texts = []; modes = [] }

false_ne_true : false ≢ true
false_ne_true e = cc

pub paths_differ :
    priv_path store (codes "keys") (codes "vpn") ≢ pub_path store (codes "keys") (codes "vpn")
unfolding list_beq
paths_differ same =
    let private = priv_path store (codes "keys") (codes "vpn") in
    let public = pub_path store (codes "keys") (codes "vpn") in
    let equal : list_beq private public ≡ true = (list_beq_iff private public).1 same in
    false_ne_true equal
