-- ===== src/Config/KeyFiles.antt =====
-- src/config.rs, `write_keypair_files` (lines 319-339). What it calls of the file system and of `base64`
-- is the parameter `KeyStore`.
pub mod Laws
use soulvpn.Base.{
  ℕ, Bool, List, [], ◌∷◌, ◌++◌, if◌then◌else◌, Result, ok, err, context, foreign, String, codes,
}
use soulvpn.Base.Actions.{Action, ◌>>=◌, ◌>>◌, pure}
use soulvpn.Config.{Env}
use soulvpn.Config.Chars.{Text}

-- `env` is what can be read in a world.
pub record KeyStore : Type 1 where
  pub World : Type 0
  pub env : World → Env
  pub join : Text → Text → Text
  pub encode64 : List ℕ → Text
  pub create_dir_all : World → Text → World × Bool
  pub write : World → Text → Text → World × Bool
  pub set_mode : World → Text → ℕ → World × Bool

module _ (store : KeyStore) where
  -- A call of the store, whose failure has a message.
  abbrev pub done : String → store.World × Bool → store.World × Result (Unit {0})
  done message (w, succeeded) = (w, if succeeded then ok tt else err (context message (foreign 0)))

  -- The encoded key on a line.
  abbrev pub key_line : List ℕ → Text
  key_line key = store.encode64 key ++ 10 ∷ []

  abbrev pub priv_path : Text → Text → Text
  priv_path dir prefix = store.join dir (prefix ++ codes ".priv")

  abbrev pub pub_path : Text → Text → Text
  pub_path dir prefix = store.join dir (prefix ++ codes ".pub")

  abbrev pub create_dir : Text → Action store.World (Unit {0})
  create_dir dir w = done "create" (store.create_dir_all w dir)

  abbrev pub write_key : Text → List ℕ → Action store.World (Unit {0})
  write_key path key w = done "write" (store.write w path (key_line key))

  abbrev pub lock : Text → Action store.World (Unit {0})
  lock path w = done "set mode" (store.set_mode w path 384)

  unfoldable pub write_keypair_files :
      Text → Text → List ℕ → List ℕ → Action store.World (Text × Text)
  write_keypair_files dir prefix privk pubk = do
    create_dir dir
    write_key (priv_path dir prefix) privk
    lock (priv_path dir prefix)
    write_key (pub_path dir prefix) pubk
    pure (priv_path dir prefix, pub_path dir prefix)
