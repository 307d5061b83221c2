-- ===== src/Route/Client/Laws.antt =====
-- The routes that `ClientRoutes` has made: what each command does to them.
use soulvpn.Base.{
  ℕ, ◌≡◌, ◌≢◌, ◌<◌, ◌∙◌, inl, inr, refl, ap, Bool, true, false, if◌then◌else◌, Option, none, some,
  List, [], ◌∷◌, String, text_eq, ◌⊎◌,
}
use soulvpn.Config.Chars.{Text}
use soulvpn.Route.Os.{Os, Arg, word, addr, number, name}
use soulvpn.Route.KillSwitch.{KillSwitch, delete_jump}
use soulvpn.Route.KillSwitch.Rules.{FilterLaws, is_done}
use soulvpn.Route.Client.{ClientRoutes, low_half, high_half, through, via, replace, del}
use soulvpn.Route.Client.Frame.{FilesApart, CommandsApart, six, iptables}

abbrev pub Table : Type 0
Table = Arg → Option (List Arg)

-- What is relied on of `ip route`, by what a command reports: the table has one way to a destination,
-- `replace` sets it and `del` removes it, and each changes nothing where it fails; IPv6, `iptables` and
-- files are apart.
pub record RouteLaws (os : Os) : Type 1 where
  pub filter : FilterLaws os
  pub routes : os.World → Table
  pub routes-replace :
      (w : os.World) (dest : Arg) (way : List Arg)
      → routes (os.exec w (replace dest way)).0 dest
        ≡ (if is_done (os.exec w (replace dest way)).1 then some way else routes w dest)
  pub routes-replace_other :
      (w : os.World) (dest s : Arg) (way : List Arg)
      → dest ≢ s
      → routes (os.exec w (replace dest way)).0 s ≡ routes w s
  pub routes-del :
      (w : os.World) (dest : Arg) (way : List Arg)
      → routes w dest ≡ some way
      → routes (os.exec w (del dest way)).0 dest
        ≡ (if is_done (os.exec w (del dest way)).1 then none else some way)
  pub routes-del_none :
      (w : os.World) (dest : Arg) (way : List Arg)
      → routes w dest ≡ none
      → routes (os.exec w (del dest way)).0 dest ≡ none
  pub routes-del_other :
      (w : os.World) (dest s : Arg) (way : List Arg)
      → dest ≢ s
      → routes (os.exec w (del dest way)).0 s ≡ routes w s
  pub routes-files : FilesApart os routes
  pub routes-six : CommandsApart os routes (six os routes)
  pub routes-iptables : CommandsApart os routes (iptables os routes)
  pub jumps-files : FilesApart os filter.jumps
  pub jumps-ip : CommandsApart os filter.jumps (word "ip" ∷ [])

-- A host on which a deletion succeeds if what it is to delete is there: no command is missing or lacks
-- the rights. The program ignores the outcome of its deletions.
pub record TidyHost (os : Os) : Type 1 where
  pub host : RouteLaws os
  pub del-succeeds :
      (w : os.World) (dest : Arg) (way : List Arg)
      → host.routes w dest ≡ some way
      → (os.exec w (del dest way)).1 ≡ some true
  pub delete-succeeds :
      (w : os.World) → 0 < host.filter.jumps w → (os.exec w delete_jump).1 ≡ some true

pub TidyHost-del :
    {os : Os} (laws : TidyHost os) (w : os.World) (dest : Arg) (way : List Arg)
    → (laws.host.routes w dest ≡ none) ⊎ (laws.host.routes w dest ≡ some way)
    → laws.host.routes (os.exec w (del dest way)).0 dest ≡ none
TidyHost-del {os} laws w dest way either = elim either [
  | inl missing ↦ laws.host.routes-del_none w dest way missing
  | inr there ↦
      let done : is_done (os.exec w (del dest way)).1 ≡ true =
        rw (laws.del-succeeds w dest way there) refl in
      laws.host.routes-del w dest way there ∙ simp done refl
]

abbrev word_of : Arg → String
word_of (word s) = s
word_of (addr a) = ""
word_of (number n) = ""
word_of (name t) = ""

false_ne_true : false ≢ true
false_ne_true e = cc

pub low-high : low_half ≢ high_half
low-high e =
    let words : "0.0.0.0/1" ≡ "128.0.0.0/1" = ap word_of e in
    let same : false ≡ true = (text_eq.beq_iff "0.0.0.0/1" "128.0.0.0/1").1 words in
    false_ne_true same

abbrev pub is_jumped : Option KillSwitch → ℕ
is_jumped none = 0
is_jumped (some ks) = 1

-- One half of the tunnel's default route is absent, or it is the one that the state stands for.
abbrev pub Half : Bool → Text → Option (List Arg) → Type 0
Half redirect_all tun way = (way ≡ none) ⊎ ((redirect_all ≡ true) × (way ≡ some (through tun)))

-- The host route is absent and the state has none, or it is the one in the state.
abbrev pub Host : ℕ → ClientRoutes → Option (List Arg) → Type 0
Host server st way =
    ((st.server_host ≡ none) × (way ≡ none))
    ⊎ ((gateway : ℕ) × (dev : Text) × (st.server_host ≡ some server)
        × (st.via_gateway ≡ some gateway)
        × (st.via_dev ≡ some dev)
        × (way ≡ some (via gateway dev)))

-- The routes to all other destinations are those of the table in front.
abbrev pub Others : ℕ → Table → Table → Type 0
Others server before table =
    (s : Arg) → low_half ≢ s → high_half ≢ s → addr server ≢ s → table s ≡ before s

abbrev pub Routed : ℕ → Table → ClientRoutes → Table → Type 0
Routed server before st table =
    Half st.redirect_all st.tun_name (table low_half)
    × Half st.redirect_all st.tun_name (table high_half)
    × Host server st (table (addr server))
    × Others server before table

-- None of its routes is there.
abbrev pub Unrouted : ℕ → Table → Table → Type 0
Unrouted server before table =
    (table low_half ≡ none)
    × (table high_half ≡ none)
    × (table (addr server) ≡ none)
    × Others server before table
