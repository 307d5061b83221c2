-- ===== src/Tests/MainRuns.antt =====
-- Runs of src/main.rs.
use soulvpn.Base.{◌≡◌, refl, none, some, [], ◌∷◌, ok, err, foreign, codes}
use soulvpn.Config.KeyFiles.{key_line, write_keypair_files}
use soulvpn.Main.{Program, Shell, World, genkey, pubkey}
use soulvpn.Main.Laws.{pubkey-genkey}
use soulvpn.Tests.ControlRuns.{json, told}
use soulvpn.Tests.KeyRuns.{store, store_laws, key, empty}

-- A public key is the private key here, and no socket is there.
abbrev program : Program
program = record {
  store = store;
  json = json (123 ∷ []) told;
  generate_keypair = λ w. (w, ok (key, key));
  public_key = λ private. private;
  connect = λ path w. (w, err (foreign 2));
}

abbrev shell : Shell (World program)
shell = record { world = empty; stdin = []; stdout = []; stderr = [] }

pubkey-genkey_example :
    let (made, r) = genkey program none (codes "key") shell in
    let (shown, r') =
      pubkey program none
        (record { world = empty; stdin = made.stdout; stdout = []; stderr = [] }) in
    (r ≡ ok tt)
    × (r' ≡ ok tt)
    × (made.stdout ≡ key_line store key)
    × (made.stderr ≡ key_line store key)
    × (shown.stdout ≡ made.stderr)
pubkey-genkey_example =
    pubkey-genkey program store_laws (codes "key") [] empty empty empty key key refl refl refl

abbrev after : Shell (World program)
unfolding genkey write_keypair_files
after = (genkey program (some (codes "keys")) (codes "vpn") shell).0
