-- ===== src/Route/Ipv6.antt =====
-- src/route.rs, `Ipv6Guard` (lines 382-403).
use soulvpn.Base.{Bool, true, List, [], ◌∷◌, if◌then◌else◌}
use soulvpn.Route.Os.{Os, Arg, word, Action, ◌>>◌, pure, run}

pub record Ipv6Guard : Type 0 where
  pub active : Bool

abbrev pub low_half : List Arg
low_half = word "blackhole" ∷ word "::/1" ∷ []

abbrev pub high_half : List Arg
high_half = word "blackhole" ∷ word "8000::/1" ∷ []

abbrev pub replace : List Arg → List Arg
replace route = word "ip" ∷ word "-6" ∷ word "route" ∷ word "replace" ∷ route

abbrev pub del : List Arg → List Arg
del route = word "ip" ∷ word "-6" ∷ word "route" ∷ word "del" ∷ route

module _ (os : Os) where
  unfoldable pub enable : Action os.World Ipv6Guard
  enable = do run os (replace low_half); run os (replace high_half); pure (record { active = true })

  -- `Drop`
  unfoldable pub remove : Ipv6Guard → os.World → os.World
  remove guard w =
      if guard.active then (os.exec (os.exec w (del low_half)).0 (del high_half)).0 else w
