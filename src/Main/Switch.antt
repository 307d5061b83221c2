-- ===== src/Main/Switch.antt =====
-- `soulvpn on` and `soulvpn off` against a running daemon.
use soulvpn.Base.{
  ℕ, ◌≡◌, refl, ap, ◌∙◌, Bool, true, false, Bool-cases, inl, inr, [], ◌∷◌, ◌++◌, Result, ok, String,
  codes, if◌then◌else◌,
}
use soulvpn.Config.Chars.{Text}
use soulvpn.Config.Show.{show_u64}
use soulvpn.Stats.{Clock, RuntimeStats, StatusSnapshot, set_enabled, snapshot}
use soulvpn.Control.{toggle, dispatch, exchange}
use soulvpn.Control.Laws.{
  CarriedRequest, CarriedResponse, op_of, exchange-toggle, exchange-dispatch, dispatch-op_of,
}
use soulvpn.Control.Ask.{Stream, request}
use soulvpn.Control.Ask.Laws.{Answers, request-exchange}
use soulvpn.Main.{Program, Shell, World, turn_on, turn_off, switch, switched, on_off}

-- The counters of packets.
abbrev counts : RuntimeStats → ℕ × ℕ
counts s = (s.tx_packets, s.rx_packets)

toggle-counts :
    (pid : ℕ) (now : Clock) (stats : RuntimeStats) (on : Bool) (message : String)
    → counts (toggle pid now stats on message).stats ≡ counts stats
unfolding set_enabled
toggle-counts pid now stats true message = elim (Bool-cases stats.enabled) [
  | inl e ↦ simp e refl
  | inr e ↦ simp e refl
]
toggle-counts pid now stats false message = elim (Bool-cases stats.enabled) [
  | inl e ↦ simp e refl
  | inr e ↦ simp e refl
]

-- A line with a state and two counters.
abbrev line : String → Bool → ℕ × ℕ → Text
line word on (tx, rx) =
    codes word
    ++ (codes "  ["
        ++ (codes (on_off on)
            ++ (codes "]  tx=" ++ (show_u64 tx ++ (codes " rx=" ++ show_u64 rx)))))

-- The line that is printed.
abbrev pub turned : Bool → RuntimeStats → Text
turned on stats =
    codes (if on then "enabled  [ON]  tx=" else "disabled  [OFF]  tx=")
    ++ (show_u64 stats.tx_packets ++ (codes " rx=" ++ show_u64 stats.rx_packets))

module _ (p : Program) where
  abbrev pub turn : Bool → Text → Shell (World p) → Shell (World p) × Result (Unit {0})
  turn on path shell = if on then turn_on p path shell else turn_off p path shell

  -- What an operation prints, by the snapshot that comes back.
  switch-request :
      (op word : String) (path text : Text) (shell : Shell (World p)) (w : World p)
      (snap : StatusSnapshot)
      → request p.json p.connect path op shell.world ≡ (w, ok snap)
      → switched p word snap ≡ text
      → switch p op word path shell
        ≡ (record shell { world = w; stdout = shell.stdout ++ (text ++ 10 ∷ []) }, ok tt)
  switch-request op word path text shell w snap asked shown =
      simp asked (
        ap (λ t. (record shell { world = w; stdout = shell.stdout ++ (t ++ 10 ∷ []) }, ok tt))
          shown)

  exchanged-counts :
      (pid : ℕ) (now : Clock) (stats : RuntimeStats) (on : Bool)
      → CarriedRequest p.json (op_of on)
      → CarriedResponse p.json (dispatch pid now stats (record { op = op_of on })).response
      → counts (exchange p.json pid now stats (op_of on)).0 ≡ counts stats
  exchanged-counts pid now stats on fits fits' =
      ap (λ r. counts r.0) (exchange-dispatch p.json pid now stats (op_of on) fits fits')
      ∙ ap (λ served. counts served.stats) (dispatch-op_of pid now stats on)
      ∙ toggle-counts pid now stats on (if on then "enabled" else "disabled")

  -- `soulvpn on` or `soulvpn off`, where the daemon is reached, answers in this way and the messages fit
  -- a frame: the data plane is in the wanted state, and the line that is printed says so, with the
  -- daemon's counters of packets.
  pub turn-exchange :
      (pid : ℕ) (now : Clock) (stats : RuntimeStats) (on : Bool) (path : Text)
      (stream : Stream (World p)) (w' w'' : World p) (shell : Shell (World p))
      → CarriedRequest p.json (op_of on)
      → CarriedResponse p.json (dispatch pid now stats (record { op = op_of on })).response
      → p.connect path shell.world ≡ (w', ok stream)
      → Answers p.json pid now stats (op_of on) stream w' w''
      → ((exchange p.json pid now stats (op_of on)).0.enabled ≡ on)
        × (turn on path shell ≡ (
          record shell { world = w''; stdout = shell.stdout ++ (turned on stats ++ 10 ∷ []) },
          ok tt,
        ))
  unfolding turn_on turn_off snapshot
  turn-exchange pid now stats true path stream w' w'' shell fits fits' reached answered =
      let (set, hooks, got, shown) = exchange-toggle p.json pid now stats true fits fits' in
      let same = exchanged-counts pid now stats true fits fits' in
      let asked =
        request-exchange p.json p.connect pid now stats "on" path stream shell.world w' w'' reached
          answered in
      let after = (exchange p.json pid now stats "on").0 in
      (
        set,
        switch-request "on" "enabled" path (turned true stats) shell w'' (snapshot pid now after)
            (asked ∙ ap (λ r. (w'', r)) got)
            (ap (λ b. line "enabled" b (counts after)) set ∙ ap (line "enabled" true) same),
      )
  turn-exchange pid now stats false path stream w' w'' shell fits fits' reached answered =
      let (set, hooks, got, shown) = exchange-toggle p.json pid now stats false fits fits' in
      let same = exchanged-counts pid now stats false fits fits' in
      let asked =
        request-exchange p.json p.connect pid now stats "off" path stream shell.world w' w'' reached
          answered in
      let after = (exchange p.json pid now stats "off").0 in
      (
        set,
        switch-request "off" "disabled" path (turned false stats) shell w'' (snapshot pid now after)
            (asked ∙ ap (λ r. (w'', r)) got)
            (ap (λ b. line "disabled" b (counts after)) set ∙ ap (line "disabled" false) same),
      )
