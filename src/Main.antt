-- ===== src/Main.antt =====
-- src/main.rs, the commands `genkey`, `pubkey`, `status`, `on` and `off` (lines 109-141 and 156-186), with
-- `encode_key` of src/config.rs and the two key functions of src/crypto.rs. A command works on a shell,
-- whose input and outputs are texts.
pub mod Laws
pub mod Switch
use soulvpn.Base.{
  ℕ, Bool, true, false, ◌&&◌, ◌||◌, Option, none, some, List, [], ◌∷◌, ◌++◌, anyb, ◌==◌,
  if◌then◌else◌, Result, ok, err, bail_if, String, codes,
}
use soulvpn.Base.Actions.{Action, ◌>>=◌, ◌>>◌, pure}
use soulvpn.Config.{decode_key}
use soulvpn.Config.Chars.{Text}
use soulvpn.Config.KeyFiles.{KeyStore, write_keypair_files}
use soulvpn.Config.Show.{show_u64}
use soulvpn.Stats.{StatusSnapshot}
use soulvpn.Control.{Json}
use soulvpn.Control.Ask.{Stream, request}

-- What the commands call of other crates: a new key pair of `snow`, the public key that `x25519_dalek`
-- computes, a connection, and the text of a snapshot in JSON.
pub record Program : Type 1 where
  pub store : KeyStore
  pub json : Json
  pub generate_keypair : Action store.World (List ℕ × List ℕ)
  pub public_key : List ℕ → List ℕ
  pub connect : Text → Action store.World (Stream store.World)

pub record Shell (W : Type 0) : Type 0 where
  pub world : W
  pub stdin : Text
  pub stdout : Text
  pub stderr : Text

abbrev pub on_world : {W A : Type 0} → Action W A → Action (Shell W) A
on_world m shell = let (w, r) = m shell.world in (record shell { world = w }, r)

abbrev pub println : {W : Type 0} → Text → Action (Shell W) (Unit {0})
println text shell = (record shell { stdout = shell.stdout ++ (text ++ 10 ∷ []) }, ok tt)

abbrev pub eprintln : {W : Type 0} → Text → Action (Shell W) (Unit {0})
eprintln text shell = (record shell { stderr = shell.stderr ++ (text ++ 10 ∷ []) }, ok tt)

abbrev with_first : ℕ → Text × Text → Text × Text
with_first c (line, rest) = (c ∷ line, rest)

-- A line with its line feed, and the rest.
abbrev pub cut_line : Text → Text × Text
cut_line [] = ([], [])
cut_line (c ∷ cs) = let more = cut_line cs in if c == 10 then (c ∷ [], cs) else with_first c more

abbrev pub read_line : {W : Type 0} → Action (Shell W) Text
read_line shell =
    let (line, rest) = cut_line shell.stdin in (record shell { stdin = rest }, ok line)

-- `contains("..")`
abbrev pub has_dots : Text → Bool
has_dots [] = false
has_dots (c ∷ []) = false
has_dots (c ∷ d ∷ cs) = (c == 46 && d == 46) || has_dots (d ∷ cs)

abbrev pub on_off : Bool → String
on_off true = "ON"
on_off false = "OFF"

module _ (p : Program) where
  abbrev pub World : Type 0
  World = p.store.World

  -- `encode_key`
  abbrev pub encode_key : List ℕ → Text
  encode_key key = p.store.encode64 key

  abbrev pub print_keys : List ℕ × List ℕ → Action (Shell World) (Unit {0})
  print_keys (privk, pubk) = println (encode_key privk) >> eprintln (encode_key pubk)

  abbrev pub write_keys : Text → Text → List ℕ × List ℕ → Action (Shell World) (Unit {0})
  write_keys dir name (privk, pubk) = do
    λ shell. (shell, bail_if (anyb (λ c. c == 47) name || has_dots name) "invalid key name")
    paths ← on_world (write_keypair_files p.store dir name privk pubk)
    eprintln (codes "wrote " ++ (paths.0 ++ codes " (mode 0600)"))
    eprintln (codes "wrote " ++ paths.1)
    println paths.0

  abbrev pub output_keys : Option Text → Text → List ℕ × List ℕ → Action (Shell World) (Unit {0})
  output_keys none name keys shell = print_keys keys shell
  output_keys (some dir) name keys shell = write_keys dir name keys shell

  unfoldable pub genkey : Option Text → Text → Action (Shell World) (Unit {0})
  genkey write_dir name = on_world p.generate_keypair >>= output_keys write_dir name

  abbrev pub key_text : Option Text → Action (Shell World) Text
  key_text none shell = read_line shell
  key_text (some k) shell = (shell, ok k)

  unfoldable pub pubkey : Option Text → Action (Shell World) (Unit {0})
  pubkey private_key = do
    key ← key_text private_key
    privk ← λ shell. (shell, decode_key (p.store.env shell.world) key)
    println (encode_key (p.public_key privk))

  -- `On` and `Off`, by the operation and the first word that is printed.
  abbrev pub switched : String → StatusSnapshot → Text
  switched word snap =
      codes word
      ++ (codes "  ["
          ++ (codes (on_off snap.enabled)
              ++ (codes "]  tx="
                  ++ (show_u64 snap.tx_packets ++ (codes " rx=" ++ show_u64 snap.rx_packets)))))

  abbrev pub switch : String → String → Text → Action (Shell World) (Unit {0})
  switch op word control_socket = do
    snap ← on_world (request p.json p.connect control_socket op)
    println (switched word snap)

  unfoldable pub turn_on : Text → Action (Shell World) (Unit {0})
  turn_on control_socket = switch "on" "enabled" control_socket

  unfoldable pub turn_off : Text → Action (Shell World) (Unit {0})
  turn_off control_socket = switch "off" "disabled" control_socket
