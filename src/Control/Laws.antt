-- ===== src/Control/Laws.antt =====
-- What the control socket guarantees: frames are read back, and a request has its effect.
use soulvpn.Base.{
  ℕ, ◌%◌, ◌^◌, ◌≤◌, ◌<◌, ◌≡◌, ◌≢◌, refl, ap, ◌∙◌, Bool, true, false, not, ◌||◌, some, List, [], ◌∷◌,
  ◌++◌, length, ltb, ◌==◌, if◌then◌else◌, Result, ok, err, bail, ◌>>=◌, ◌>>◌, bail_if, with_context,
  or_context, to_le_bytes, length-to_le_bytes, from_le_bytes-to_le_bytes, take-append, drop-append,
  length-append, append_assoc, append-nil, String, ◌<>◌, ◌=?=◌, text_eq, arith,
}
use text.Mathlib.TextEquality.{eq_iff}
use soulvpn.Stats.{Clock, RuntimeStats, StatusSnapshot, set_enabled, snapshot}
use soulvpn.Control.{
  Json, Response, read_exact, max_frame, read_msg, write_msg, Served, accepted, toggle, dispatch,
  handle_client, request_bytes, failure_text, read_reply, exchange,
}

-- A body of a length that the reader accepts.
abbrev pub Fits : List ℕ → Type 0
Fits body = (0 < length body) × (length body ≤ max_frame)

-- What is relied on of `serde_json`: the message fits a frame, and what is written is read back.
abbrev pub Carried : {T : Type 0} → (T → List ℕ) → (List ℕ → Result T) → T → Type 0
Carried to_vec from_slice message =
    Fits (to_vec message) × (from_slice (to_vec message) ≡ ok message)

read_exact-append :
    (n : ℕ) (xs rest : List ℕ) → length xs ≡ n → read_exact n (xs ++ rest) ≡ ok (xs, rest)
unfolding read_exact
read_exact-append n xs rest h =
    let enough : ltb (length (xs ++ rest)) n ≡ false = ground (arith, length-append xs rest) in
    rw (enough, take-append n xs rest h, drop-append n xs rest h) refl

-- A frame is read back as what its body says, whatever follows it in the stream.
pub read_msg-write_msg :
    {T : Type 0} (from_slice : List ℕ → Result T) (body rest : List ℕ)
    → Fits body
    → read_msg from_slice (write_msg body ++ rest)
      ≡ (with_context "parse control JSON" (from_slice body) >>= λ msg. ok (msg, rest))
unfolding read_msg write_msg
read_msg-write_msg from_slice body rest fits =
    let size : length body % 2 ^ 32 ≡ length body = omega (arith, fits) in
    let small : length body < 256 ^ 4 = omega (arith, fits) in
    let head = to_le_bytes 4 (length body) in
    let test : (length body == 0 || ltb max_frame (length body)) ≡ false = ground (arith, fits) in
    rw
      (
        size,
        append_assoc head body rest,
        read_exact-append 4 head (body ++ rest) (length-to_le_bytes 4 (length body)),
        from_le_bytes-to_le_bytes 4 (length body) small,
        test,
        read_exact-append (length body) body rest refl,
      )
      refl

abbrev pub CarriedRequest : Json → String → Type 0
CarriedRequest json op = Carried json.request_to_vec json.request_from_slice (record { op = op })

abbrev pub CarriedResponse : Json → Response → Type 0
CarriedResponse json resp = Carried json.response_to_vec json.response_from_slice resp

module _ (json : Json) where
  read_request :
      (op : String)
      → CarriedRequest json op
      → read_msg json.request_from_slice (request_bytes json op) ≡ ok (record { op = op }, [])
  unfolding request_bytes
  read_request op fits =
      let body = json.request_to_vec (record { op = op }) in
      rw (← append-nil (write_msg body))
        (read_msg-write_msg json.request_from_slice body [] fits.0 ∙ rw fits.1 refl)

  abbrev pub replied : Response → Result StatusSnapshot
  replied resp =
      bail_if (not resp.okay) (failure_text json resp.error)
      >> or_context "control response missing status payload" resp.status

  read_reply-write_msg :
      (resp : Response)
      → CarriedResponse json resp
      → read_reply json (write_msg (json.response_to_vec resp)) ≡ replied resp
  unfolding read_reply
  read_reply-write_msg resp fits =
      let body = json.response_to_vec resp in
      let got : read_msg json.response_from_slice (write_msg body ++ []) ≡ ok (resp, []) =
        read_msg-write_msg json.response_from_slice body [] fits.0 ∙ rw fits.1 refl in
      rw (← append-nil (write_msg body), got) refl

  -- What a caller makes of what the server does.
  abbrev pub outcome : Served → RuntimeStats × List Bool × Result StatusSnapshot
  outcome served = (served.stats, served.hooks, replied served.response)

  pub exchange-dispatch :
      (pid : ℕ) (now : Clock) (stats : RuntimeStats) (op : String)
      → CarriedRequest json op
      → CarriedResponse json (dispatch pid now stats (record { op = op })).response
      → exchange json pid now stats op ≡ outcome (dispatch pid now stats (record { op = op }))
  unfolding exchange handle_client
  exchange-dispatch pid now stats op fits fits' =
      let served = dispatch pid now stats (record { op = op }) in
      rw (read_request op fits, handle_client)
        (ap (λ (r : Result StatusSnapshot). (served.stats, served.hooks, r))
          (read_reply-write_msg served.response fits'))

-- The operation that turns the data plane on or off.
abbrev pub op_of : Bool → String
op_of on = if on then "on" else "off"

abbrev pub differs : Bool → Bool → Bool
differs on was = if on then not was else was

toggle_lem :
    (pid : ℕ) (now : Clock) (stats : RuntimeStats) (on : Bool) (message : String)
    → let served = toggle pid now stats on message in
      (served.stats.enabled ≡ on)
      × (served.hooks ≡ (if differs on stats.enabled then on ∷ [] else []))
      × (served.response ≡ accepted pid now served.stats (some message))
unfolding set_enabled
toggle_lem pid now stats on message = ground arith

pub dispatch-op_of :
    (pid : ℕ) (now : Clock) (stats : RuntimeStats) (on : Bool)
    → dispatch pid now stats (record { op = op_of on })
      ≡ toggle pid now stats on (if on then "enabled" else "disabled")
unfolding dispatch
dispatch-op_of pid now stats true = refl
dispatch-op_of pid now stats false = refl

-- `on` and `off` have their effect and report it: after the exchange the data plane is in the wanted
-- state, the caller gets the snapshot of that moment, which says so, and the hook was called exactly if
-- the state was another one before. This holds as long as the two messages fit a frame.
pub exchange-toggle :
    (json : Json) (pid : ℕ) (now : Clock) (stats : RuntimeStats) (on : Bool)
    → CarriedRequest json (op_of on)
    → CarriedResponse json (dispatch pid now stats (record { op = op_of on })).response
    → let r = exchange json pid now stats (op_of on) in
      (r.0.enabled ≡ on)
      × (r.1 ≡ (if differs on stats.enabled then on ∷ [] else []))
      × (r.2 ≡ ok (snapshot pid now r.0))
      × ((snapshot pid now r.0).enabled ≡ on)
unfolding snapshot
exchange-toggle json pid now stats on fits fits' =
    let message : String = if on then "enabled" else "disabled" in
    let whole = exchange-dispatch json pid now stats (op_of on) fits fits' in
    let served = toggle_lem pid now stats on message in
    rw (whole, dispatch-op_of pid now stats on) (served.0, served.1, rw (served.2) refl, served.0)

-- `status`, and every operation that is unknown, change nothing and call no hook; the caller gets the
-- snapshot, or an error that names the operation. This holds as long as the two messages fit a frame.
pub exchange_others :
    (json : Json) (pid : ℕ) (now : Clock) (stats : RuntimeStats) (op : String)
    → op ≢ "on"
    → op ≢ "off"
    → CarriedRequest json op
    → CarriedResponse json (dispatch pid now stats (record { op = op })).response
    → exchange json pid now stats op ≡ (
      stats,
      [],
      if op =?= "status" then ok (snapshot pid now stats) else err (bail ("unknown op: " <> op)),
    )
unfolding dispatch
exchange_others json pid now stats op not_on not_off fits fits' =
    exchange-dispatch json pid now stats op fits fits'
    ∙ ground (arith, eq_iff op "on", eq_iff op "off")

read_msg_too_long :
    {T : Type 0} (from_slice : List ℕ → Result T) (body : List ℕ)
    → max_frame < length body
    → length body < 2 ^ 32
    → read_msg from_slice (write_msg body) ≡ err (bail "invalid control frame length")
unfolding read_msg write_msg
read_msg_too_long from_slice body long small =
    let size : length body % 2 ^ 32 ≡ length body = omega (arith, small) in
    let word : length body < 256 ^ 4 = omega (arith, small) in
    let head = to_le_bytes 4 (length body) in
    let test : (length body == 0 || ltb max_frame (length body)) ≡ true = ground (arith, long) in
    rw
      (
        size,
        read_exact-append 4 head body (length-to_le_bytes 4 (length body)),
        from_le_bytes-to_le_bytes 4 (length body) word,
        test,
      )
      refl

-- A response that is longer than a frame may be, as the list of many peers makes it, is sent all the
-- same and refused by the caller: `on` and `off` have had their effect, and the caller sees an error.
pub exchange_too_long :
    (json : Json) (pid : ℕ) (now : Clock) (stats : RuntimeStats) (on : Bool)
    → let body =
        json.response_to_vec (dispatch pid now stats (record { op = op_of on })).response in
      CarriedRequest json (op_of on)
      → max_frame < length body
      → length body < 2 ^ 32
      → let r = exchange json pid now stats (op_of on) in
        (r.0.enabled ≡ on) × (r.2 ≡ err (bail "invalid control frame length"))
unfolding exchange handle_client read_reply
exchange_too_long json pid now stats on fits long small =
    let body = json.response_to_vec (dispatch pid now stats (record { op = op_of on })).response in
    let served = toggle_lem pid now stats on (if on then "enabled" else "disabled") in
    rw
      (
        read_request json (op_of on) fits,
        handle_client,
        read_msg_too_long json.response_from_slice body long small,
      )
      (rw (dispatch-op_of pid now stats on) served.0, refl)
