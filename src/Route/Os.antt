-- ===== src/Route/Os.antt =====
-- The operating system as src/route.rs uses it, and `run`, `run_status` and `default_route` (lines
-- 452-502). The commands and the files are the parameter `Os`.
pub mod Laws
pub use soulvpn.Base.Actions.{Action, and_then, ◌>>=◌, ◌>>◌, pure, ignore}
use soulvpn.Base.{
  ℕ, Bool, true, false, not, Option, none, some, List, [], ◌∷◌, if◌then◌else◌, Result, ok, err,
  bail, foreign, context, Error, with_context, String, list_beq, codes,
}
use soulvpn.Config.Chars.{Text, is_whitespace}
use soulvpn.Config.{parse_addr}

-- An argument of a command, before it is turned into text: a fixed word, an address, a number or a text.
pub data Arg : Type 0 where
  word : String → Arg
  addr : ℕ → Arg
  number : ℕ → Arg
  name : Text → Arg

-- `exec` is `status()` of a command: `none` if it cannot be started, else whether it succeeds; `output`
-- is for a command that only shows, and adds what it prints. A read, a write or a removal
-- may fail.
pub record Os : Type 1 where
  pub World : Type 0
  pub exec : World → List Arg → World × Option Bool
  pub output : World → List Arg → Option (Bool × Text)
  pub exists : World → String → Bool
  pub read : World → String → Option Text
  pub write : World → String → Text → World × Bool
  pub remove_file : World → String → World × Bool

-- `split_whitespace`
abbrev pub extend : ℕ → List Text → List Text
extend c [] = (c ∷ []) ∷ []
extend c (part ∷ parts) = (c ∷ part) ∷ parts

-- The words, with an empty word in front where the text begins with white space.
abbrev pub spaced : Text → List Text
spaced [] = [] ∷ []
spaced (c ∷ cs) = let rest = spaced cs in if is_whitespace c then [] ∷ rest else extend c rest

abbrev pub drop_empty : List Text → List Text
drop_empty [] = []
drop_empty ([] ∷ parts) = drop_empty parts
drop_empty ((c ∷ cs) ∷ parts) = (c ∷ cs) ∷ drop_empty parts

abbrev pub split_whitespace : Text → List Text
split_whitespace s = drop_empty (spaced s)

-- The loop over the words: the last `via` and the last `dev` count, and each takes the next word.
unfoldable pub scan_route : List Text → Option ℕ → Option Text → Option ℕ × Option Text
scan_route [] gateway dev = (gateway, dev)
scan_route (tok ∷ []) gateway dev =
    if list_beq tok (codes "via")
    then (none, dev)
    else if list_beq tok (codes "dev")
    then (gateway, none)
    else (gateway, dev)
scan_route (tok ∷ next ∷ rest) gateway dev =
    let after_via = scan_route rest (parse_addr next) dev in
    let after_dev = scan_route rest gateway (some next) in
    let other = scan_route (next ∷ rest) gateway dev in
    if list_beq tok (codes "via")
    then after_via
    else if list_beq tok (codes "dev")
    then after_dev
    else other

abbrev pub found_route : Option ℕ × Option Text → Result (ℕ × Text)
found_route (some gateway, some dev) = ok (gateway, dev)
found_route (some gateway, none) = err (bail "could not parse default route")
found_route (none, dev) = err (bail "could not parse default route")

abbrev pub route_of : Option (Bool × Text) → Result (ℕ × Text)
route_of none = err (context "ip route show default" (foreign 0))
route_of (some (false, text)) = err (bail "ip route show default failed")
route_of (some (true, text)) = found_route (scan_route (split_whitespace text) none none)

abbrev pub ran : Option Bool → Result (Unit {0})
ran none = err (context "spawn" (foreign 0))
ran (some false) = err (bail "command failed")
ran (some true) = ok tt

abbrev pub succeeded : Option Bool → Result Bool
succeeded none = err (context "spawn" (foreign 0))
succeeded (some b) = ok b

module _ (os : Os) where
  abbrev pub run : List Arg → Action os.World (Unit {0})
  run args w = let (w', status) = os.exec w args in (w', ran status)

  abbrev pub run_status : List Arg → Action os.World Bool
  run_status args w = let (w', status) = os.exec w args in (w', succeeded status)

  unfoldable pub default_route : os.World → Result (ℕ × Text)
  default_route w =
      route_of
        (os.output w (word "ip" ∷ word "-4" ∷ word "route" ∷ word "show" ∷ word "default" ∷ []))

  abbrev pub device_of : Result (ℕ × Text) → Result Text
  device_of (ok (gateway, dev)) = ok dev
  device_of (err e) = err e

  unfoldable pub default_egress_dev : os.World → Result Text
  default_egress_dev w = device_of (default_route w)

  -- `match`, where an error is only logged.
  abbrev pub ok_or_none : {G : Type 0} → os.World × Result G → os.World × Option G
  ok_or_none (w, ok g) = (w, some g)
  ok_or_none (w, err e) = (w, none)

  abbrev pub write_file : String → String → Text → Action os.World (Unit {0})
  write_file message path text w =
      let (w', done) = os.write w path text in
      (w', if done then ok tt else err (context message (foreign 0)))
