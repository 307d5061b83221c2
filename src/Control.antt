-- ===== src/Control.antt =====
-- src/control.rs: the control socket (lines 23-37, 97-199). A stream is the list of the bytes that the
-- other side sends before it stops; what is written is a list of bytes. `serde_json` is the parameter
-- `Json`.
pub mod Laws
pub mod Effect
pub mod Serve
pub mod Ask
use soulvpn.Base.{
  ℕ, ◌+◌, ◌%◌, ◌^◌, Bool, true, false, not, ◌||◌, Option, none, some, List, [], ◌∷◌, ◌++◌, length,
  take, drop, ltb, leb, ◌==◌, if◌then◌else◌, Result, ok, err, bail, ◌>>=◌, ◌>>◌, bail_if,
  with_context, or_context, to_le_bytes, from_le_bytes, String, ◌<>◌, ◌=?=◌, text_eq,
}
use soulvpn.Config.Chars.{Text}
use soulvpn.Config.{parse_mode}
use soulvpn.Stats.{Clock, RuntimeStats, StatusSnapshot, is_enabled, set_enabled, snapshot}

-- A message with the operation's name.
pub record Request : Type 0 where
  pub op : String

-- `okay` is the source's field `ok`.
pub record Response : Type 0 where
  pub okay : Bool
  pub status : Option StatusSnapshot
  pub error : Option String
  pub message : Option String

-- The texts that `serde_json` writes and reads for the two messages.
pub record Json : Type 0 where
  pub request_to_vec : Request → List ℕ
  pub request_from_slice : List ℕ → Result Request
  pub response_to_vec : Response → List ℕ
  pub response_from_slice : List ℕ → Result Response

-- `read_exact`: the bytes and the rest of the stream, or an error when it ends too early.
unfoldable pub read_exact : ℕ → List ℕ → Result (List ℕ × List ℕ)
read_exact n stream =
    if ltb (length stream) n
    then err (bail "unexpected end of file")
    else ok (take n stream, drop n stream)

abbrev pub max_frame : ℕ
max_frame = 2 ^ 20

-- The message, as `from_slice` reads it, and the rest of the stream.
unfoldable pub read_msg : {T : Type 0} → (List ℕ → Result T) → List ℕ → Result (T × List ℕ)
read_msg from_slice stream = do
  head ← with_context "read control frame length" (read_exact 4 stream)
  let len = from_le_bytes head.0
  bail_if (len == 0 || ltb max_frame len) "invalid control frame length"
  body ← with_context "read control frame body" (read_exact len head.1)
  msg ← with_context "parse control JSON" (from_slice body.0)
  ok (msg, body.1)

unfoldable pub write_msg : List ℕ → List ℕ
write_msg body = to_le_bytes 4 (length body % 2 ^ 32) ++ body

-- What serving a request comes to: the statistics, the calls of the hook, and the response.
pub record Served : Type 0 where
  pub stats : RuntimeStats
  pub hooks : List Bool
  pub response : Response

abbrev pub accepted : ℕ → Clock → RuntimeStats → Option String → Response
accepted pid now stats message = record {
  okay = true;
  status = some (snapshot pid now stats);
  error = none;
  message = message;
}

-- The two arms that turn the data plane on and off: the state changes and the hook is called only
-- where `on` is another state than before.
abbrev pub toggle : ℕ → Clock → RuntimeStats → Bool → String → Served
toggle pid now stats on message =
    if (if on then not (is_enabled stats) else is_enabled stats)
    then record {
      stats = set_enabled on now stats;
      hooks = on ∷ [];
      response = accepted pid now (set_enabled on now stats) (some message);
    }
    else record { stats = stats; hooks = []; response = accepted pid now stats (some message) }

unfoldable pub dispatch : ℕ → Clock → RuntimeStats → Request → Served
dispatch pid now stats req =
    if req.op =?= "status"
    then record { stats = stats; hooks = []; response = accepted pid now stats none }
    else if req.op =?= "on"
    then toggle pid now stats true "enabled"
    else if req.op =?= "off"
    then toggle pid now stats false "disabled"
    else record {
      stats = stats;
      hooks = [];
      response = record {
        okay = false;
        status = none;
        error = some ("unknown op: " <> req.op);
        message = none;
      };
    }

-- `SOULVPN_CONTROL_MODE` is an argument.
unfoldable pub resolve_control_mode : Option Text → ℕ → ℕ
resolve_control_mode none from_config = from_config
resolve_control_mode (some s) from_config = elim (parse_mode s) [ ok m ↦ m | err e ↦ from_config ]

module _ (json : Json) where
  -- The statistics and the calls of the hook, and what is written.
  abbrev pub reply : Served → RuntimeStats × List Bool × Result (List ℕ)
  reply served = (served.stats, served.hooks, ok (write_msg (json.response_to_vec served.response)))

  abbrev pub answered :
      ℕ
      → Clock
      → RuntimeStats
      → Result (Request × List ℕ)
      → RuntimeStats × List Bool × Result (List ℕ)
  answered pid now stats (err e) = (stats, [], err e)
  answered pid now stats (ok (req, rest)) = reply (dispatch pid now stats req)

  unfoldable pub handle_client :
      ℕ → Clock → RuntimeStats → List ℕ → RuntimeStats × List Bool × Result (List ℕ)
  handle_client pid now stats stream =
      answered pid now stats (read_msg json.request_from_slice stream)

  unfoldable pub request_bytes : String → List ℕ
  request_bytes op = write_msg (json.request_to_vec (record { op = op }))

  abbrev pub failure_text : Option String → String
  failure_text none = "control request failed"
  failure_text (some text) = text

  -- `request`, once it has written its message, on the bytes that come back.
  unfoldable pub read_reply : List ℕ → Result StatusSnapshot
  read_reply stream = do
    resp ← read_msg json.response_from_slice stream
    bail_if (not resp.0.okay) (failure_text resp.0.error)
    or_context "control response missing status payload" resp.0.status

  -- One call of `request` that reaches `handle_client`.
  unfoldable pub exchange :
      ℕ → Clock → RuntimeStats → String → RuntimeStats × List Bool × Result StatusSnapshot
  exchange pid now stats op =
      let served = handle_client pid now stats (request_bytes op) in
      (served.0, served.1, served.2 >>= read_reply)
