-- ===== src/Adapters/Anthropic/Blocks.antt =====
-- What a server sends on a stream of the Messages API, and what `_stream_impl` reads of it.
use llmops_gateway.Prelude.{
  ℕ, String, true, false, ◌≡◌, refl, ap, ◌∙◌, Option, none, some, List, [], ◌∷◌, ◌++◌, ◌==◌,
  string_eq, is_empty, if◌then◌else◌, Bool-cases, ◌⊎◌, inl, inr, arith, All, nat_eq,
}
use llmops_gateway.Prelude.Texts.{starts_with, compatible, starts_with-compatible}
use llmops_gateway.Caching.Hashing.{lstrip, rstrip}
use llmops_gateway.Domain.Chat.{ChatRequest}
use llmops_gateway.Errors.{Exn, provider, response, retryable}
use llmops_gateway.Json.{Json, Fields, null, text, obj, find}
use llmops_gateway.Adapters.Http.{Client, HttpFailure, HttpResponse, opened, failure}
use llmops_gateway.Adapters.Lines.{
  Line, skip, emit, Parsed, raised, broke, ran_out, run_lines, after_line, ended_by, value_of,
  read_stream, read_outcome,
}
use llmops_gateway.Adapters.Sse.{
  Reads, ClientLaws, field_line, prefix_field_line, field_line_not_empty, value_of-field_line,
  loads_line,
}
use llmops_gateway.Adapters.Anthropic.{
  build_payload, stream_impl, step, on_event, delta_text, stream_error,
}

-- An event: a delta with a text, a delta of another kind, such as the arguments of a tool, or an
-- event with another name, such as `ping` or `message_start`. The event and the delta are any
-- dictionaries.
pub data Sent : Type 0 where
  delta : Fields → Fields → String → Sent
  textless : Fields → Fields → Sent
  named : String → Json → Sent

abbrev pub event_lines : (Json → String) → String → Json → List String
event_lines dumps name v = field_line "event:" name ∷ field_line "data:" (dumps v) ∷ "" ∷ []

abbrev pub lines_of : (Json → String) → List Sent → List String
lines_of dumps [] = []
lines_of dumps (delta fs ds s ∷ rest) =
    field_line "event:" "content_block_delta"
    ∷ field_line "data:" (dumps (obj fs))
    ∷ ""
    ∷ lines_of dumps rest
lines_of dumps (textless fs ds ∷ rest) =
    field_line "event:" "content_block_delta"
    ∷ field_line "data:" (dumps (obj fs))
    ∷ ""
    ∷ lines_of dumps rest
lines_of dumps (named name v ∷ rest) =
    field_line "event:" name ∷ field_line "data:" (dumps v) ∷ "" ∷ lines_of dumps rest

-- The texts that the deltas carry: an empty one is not passed on.
abbrev pub texts_of : List Sent → List String
texts_of [] = []
texts_of (delta fs ds s ∷ rest) =
    let later = texts_of rest in if is_empty s then later else s ∷ later
texts_of (textless fs ds ∷ rest) = texts_of rest
texts_of (named name v ∷ rest) = texts_of rest

-- The name has no white space at its ends and is none that the adapter acts on.
abbrev pub IsOther : String → Type 0
IsOther name =
    (rstrip (lstrip name) ≡ name)
    × ((name == "content_block_delta") ≡ false)
    × ((name == "error") ≡ false)
    × ((name == "message_stop") ≡ false)

abbrev pub IsSent : {W : Type 0} → Client W → (Json → String) → Sent → Type 0
IsSent c dumps (delta fs ds s) =
    (find "delta" fs ≡ some (obj ds)) × (find "text" ds ≡ some (text s)) × Reads c dumps (obj fs)
IsSent c dumps (textless fs ds) =
    (find "delta" fs ≡ some (obj ds))
    × ((find "text" ds ≡ none) ⊎ (find "text" ds ≡ some null))
    × Reads c dumps (obj fs)
IsSent c dumps (named name v) = IsOther name × Reads c dumps v

-- What follows the events: the event that ends the message or one for an error, each with any
-- lines after it, or nothing.
pub data Tail : Type 0 where
  message_stop : Json → List String → Tail
  error : Json → List String → Tail
  nothing : Tail

abbrev pub IsTail : {W : Type 0} → Client W → (Json → String) → Tail → Type 0
IsTail c dumps (message_stop v rest) = Reads c dumps v
IsTail c dumps (error v rest) = Reads c dumps v
IsTail c dumps nothing = Unit

abbrev pub tail_lines : (Json → String) → Tail → List String
tail_lines dumps (message_stop v rest) =
    field_line "event:" "message_stop" ∷ field_line "data:" (dumps v) ∷ rest
tail_lines dumps (error v rest) = field_line "event:" "error" ∷ field_line "data:" (dumps v) ∷ rest
tail_lines dumps nothing = []

abbrev pub ended_as : Tail → Option HttpFailure → Option Exn
ended_as (message_stop v rest) cut_off = none
ended_as (error v rest) cut_off = some (stream_error 200 v)
ended_as nothing none = none
ended_as nothing (some f) = some (failure f)

module _ {W : Type 0} (c : Client W) where
  step-event :
      (k : ℕ) (s : Option String) (name : String)
      → step c k s (field_line "event:" name) ≡ (some (rstrip (lstrip name)), skip)
  unfolding step
  step-event k s name = rw (
    field_line_not_empty "event:" name refl,
    prefix_field_line "event:" name,
    value_of-field_line "event:" name,
  )

  step_blank : (k : ℕ) (s : Option String) → step c k s "" ≡ (s, skip)
  unfolding step
  step_blank k s = refl

  no_event_line : (s : String) → starts_with (field_line "data:" s) "event:" ≡ false
  no_event_line s = elim (Bool-cases (starts_with (field_line "data:" s) "event:")) [
    | inl e ↦
        let h : compatible "data:" "event:" ≡ true =
          starts_with-compatible (field_line "data:" s) "data:" "event:"
            (prefix_field_line "data:" s) e in
        cc
    | inr e ↦ e
  ]

  step-data :
      (k : ℕ) (s : Option String) (line : String) (v : Json)
      → c.loads (value_of "data:" (field_line "data:" line)) ≡ some v
      → step c k s (field_line "data:" line) ≡ (s, on_event c.as_chunk k s v)
  unfolding step
  step-data k s line v h = rw (
    field_line_not_empty "data:" line refl,
    no_event_line line,
    prefix_field_line "data:" line,
    h,
  )

on_event-delta :
    (as_chunk : Json → String) (k : ℕ) (fs ds : Fields) (s : String)
    → find "delta" fs ≡ some (obj ds)
    → find "text" ds ≡ some (text s)
    → on_event as_chunk k (some "content_block_delta") (obj fs)
      ≡ (if is_empty s then skip else emit (as_chunk (text s)))
unfolding on_event delta_text
on_event-delta as_chunk k fs ds s d h =
    rw (d, h) (elim (Bool-cases (is_empty s)) [ inl e ↦ rw e | inr e ↦ rw e ])

on_event-textless :
    (as_chunk : Json → String) (k : ℕ) (fs ds : Fields)
    → find "delta" fs ≡ some (obj ds)
    → (find "text" ds ≡ none) ⊎ (find "text" ds ≡ some null)
    → on_event as_chunk k (some "content_block_delta") (obj fs) ≡ skip
unfolding on_event delta_text
on_event-textless as_chunk k fs ds d (inl h) = rw (d, h)
on_event-textless as_chunk k fs ds d (inr h) = rw (d, h)

on_event-other :
    (as_chunk : Json → String) (k : ℕ) (name : String) (v : Json)
    → IsOther name
    → on_event as_chunk k (some name) v ≡ skip
unfolding on_event
on_event-other as_chunk k name v h = rw (h.1, h.2, h.3)

module _ {W : Type 0} (c : Client W) (dumps : Json → String) (laws : ClientLaws c) where
  -- The lines of one event.
  run_event :
      (k : ℕ) (s : Option String) (name : String) (v : Json) (rest : List String)
      → Reads c dumps v
      → run_lines (step c k) s (field_line "event:" name ∷ field_line "data:" (dumps v) ∷ rest)
        ≡ after_line
            (on_event c.as_chunk k (some (rstrip (lstrip name))) v)
            (run_lines (step c k) (some (rstrip (lstrip name))) rest)
  unfolding run_lines
  run_event k s name v rest reads = rw (
    step-event c k s name,
    step-data c k (some (rstrip (lstrip name))) (dumps v) v (loads_line c dumps v reads),
  )

  skip_blank :
      (k : ℕ) (s : Option String) (rest : List String)
      → run_lines (step c k) s ("" ∷ rest) ≡ run_lines (step c k) s rest
  unfolding run_lines
  skip_blank k s rest = rw (step_blank c k s)

  abbrev parsed_as : List Sent → Tail → Parsed
  parsed_as sent (message_stop v rest) = record { texts = texts_of sent; ending = broke }
  parsed_as sent (error v rest) = record {
    texts = texts_of sent;
    ending = raised (stream_error 200 v);
  }
  parsed_as sent nothing = record { texts = texts_of sent; ending = ran_out }

  stripped_delta : rstrip (lstrip "content_block_delta") ≡ "content_block_delta"
  unfolding lstrip rstrip
  stripped_delta = refl

  run_tail :
      (s : Option String) (tail : Tail)
      → IsTail c dumps tail
      → run_lines (step c 200) s (tail_lines dumps tail) ≡ parsed_as [] tail
  unfolding run_lines on_event lstrip rstrip
  run_tail s (message_stop v rest) h = rw (run_event 200 s "message_stop" v rest h)
  run_tail s (error v rest) h = rw (run_event 200 s "error" v rest h)
  run_tail s nothing h = refl

  -- A delta, whatever it is read as.
  run_delta :
      (s : Option String) (v : Json) (l : Line) (rest : List String)
      → Reads c dumps v
      → on_event c.as_chunk 200 (some "content_block_delta") v ≡ l
      → run_lines (step c 200) s (event_lines dumps "content_block_delta" v ++ rest)
        ≡ after_line l (run_lines (step c 200) (some "content_block_delta") rest)
  run_delta s v l rest h read = rw (
    run_event 200 s "content_block_delta" v ("" ∷ rest) h,
    stripped_delta,
    skip_blank 200 (some "content_block_delta") rest,
    read,
  )

  read_text :
      (fs ds : Fields) (d : String)
      → find "delta" fs ≡ some (obj ds)
      → find "text" ds ≡ some (text d)
      → on_event c.as_chunk 200 (some "content_block_delta") (obj fs)
        ≡ (if is_empty d then skip else emit d)
  read_text fs ds d found h =
      on_event-delta c.as_chunk 200 fs ds d found h ∙ rw (laws.as_chunk-text d)

  run_named :
      (s : Option String) (name : String) (v : Json) (rest : List String)
      → IsOther name
      → Reads c dumps v
      → run_lines (step c 200) s (event_lines dumps name v ++ rest)
        ≡ run_lines (step c 200) (some name) rest
  run_named s name v rest h reads = rw (
    run_event 200 s name v ("" ∷ rest) reads,
    h.0,
    skip_blank 200 (some name) rest,
    on_event-other c.as_chunk 200 name v h,
  )

  parsed_as-delta :
      (fs ds : Fields) (d : String) (sent : List Sent) (tail : Tail)
      → after_line (if is_empty d then skip else emit d) (parsed_as sent tail)
        ≡ parsed_as (delta fs ds d ∷ sent) tail
  parsed_as-delta fs ds d sent tail = ground arith

  parsed_as-textless :
      (fs ds : Fields) (sent : List Sent) (tail : Tail)
      → after_line skip (parsed_as sent tail) ≡ parsed_as (textless fs ds ∷ sent) tail
  parsed_as-textless fs ds sent tail = ground arith

  parsed_as-named :
      (name : String) (v : Json) (sent : List Sent) (tail : Tail)
      → parsed_as sent tail ≡ parsed_as (named name v ∷ sent) tail
  parsed_as-named name v sent tail = ground arith

  run_sequence :
      (s : Option String) (sent : List Sent) (tail : Tail)
      → All (IsSent c dumps) sent
      → IsTail c dumps tail
      → run_lines (step c 200) s (lines_of dumps sent ++ tail_lines dumps tail)
        ≡ parsed_as sent tail
  run_sequence s [] tail h ends = run_tail s tail ends
  run_sequence s (delta fs ds d ∷ sent) tail h ends =
      run_delta s (obj fs) (if is_empty d then skip else emit d)
        (lines_of dumps sent ++ tail_lines dumps tail) h.0.2 (read_text fs ds d h.0.0 h.0.1)
      ∙ (ap (after_line (if is_empty d then skip else emit d))
            (run_sequence (some "content_block_delta") sent tail h.1 ends)
          ∙ parsed_as-delta fs ds d sent tail)
  run_sequence s (textless fs ds ∷ sent) tail h ends =
      run_delta s (obj fs) skip (lines_of dumps sent ++ tail_lines dumps tail) h.0.2
        (on_event-textless c.as_chunk 200 fs ds h.0.0 h.0.1)
      ∙ (ap (after_line skip) (run_sequence (some "content_block_delta") sent tail h.1 ends)
          ∙ parsed_as-textless fs ds sent tail)
  run_sequence s (named name v ∷ sent) tail h ends =
      run_named s name v (lines_of dumps sent ++ tail_lines dumps tail) h.0.0 h.0.1
      ∙ (run_sequence (some name) sent tail h.1 ends ∙ parsed_as-named name v sent tail)

  read_parsed :
      (head : HttpResponse) (sent : List Sent) (tail : Tail) (cut_off : Option HttpFailure)
      → ended_by (parsed_as sent tail).ending cut_off ≡ ended_as tail cut_off
  unfolding ended_by
  read_parsed head sent tail cut_off = ground arith

  texts_parsed : (sent : List Sent) (tail : Tail) → (parsed_as sent tail).texts ≡ texts_of sent
  texts_parsed sent tail = ground arith

  -- Where the server answers 200 and sends in any order deltas with a text, deltas without one and
  -- events of other names, all read back as they were written, and then either the event that ends
  -- the message, or one for an error, or nothing more: the stream yields exactly the texts of the
  -- deltas that are not empty, in their order, whatever follows. It ends
  -- without an exception after the end of the message or if nothing more was sent and the connection
  -- was not cut off, with the exception for the failure that cut it off, or with the one for the
  -- event of an error.
  pub stream_impl-lines_of :
      (request : ChatRequest) (w w' : W) (head : HttpResponse) (sent : List Sent) (tail : Tail)
      (cut_off : Option HttpFailure)
      → head.status_code ≡ 200
      → All (IsSent c dumps) sent
      → IsTail c dumps tail
      → c.stream "/messages" (build_payload request true) w ≡ (
        opened (record {
          head = head;
          lines = lines_of dumps sent ++ tail_lines dumps tail;
          cut_off = cut_off;
        }),
        w',
      )
      → stream_impl c request w
        ≡ (record { chunks = texts_of sent; ended = ended_as tail cut_off }, w')
  unfolding stream_impl read_outcome read_stream
  stream_impl-lines_of request w w' head sent tail cut_off s h ends e = rw (
    e,
    s,
    run_sequence none sent tail h ends,
    read_parsed head sent tail cut_off,
    texts_parsed sent tail,
  )

-- The exception for the event of an error, where it is an object, is one for a response with the
-- status of the stream, so it is not worth another attempt where that is 200.
pub stream_error-retryable :
    (fs es : Fields)
    → find "error" fs ≡ some (obj es)
    → (stream_error 200 (obj fs) ≡ provider (response 200)) × (retryable (response 200) ≡ false)
unfolding stream_error
stream_error-retryable fs es h = (ground arith, refl)
