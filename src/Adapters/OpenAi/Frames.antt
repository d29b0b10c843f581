-- ===== src/Adapters/OpenAi/Frames.antt =====
-- What a server sends on a stream of chat completions, and what `_stream_impl` reads of it. The
-- chunks of `_sse` in api/v1/chat.py have this form too.
use mathlib.Core.List.{append-nil}
use llmops_gateway.Prelude.{
  ℕ, String, true, false, ◌≡◌, refl, ap, ◌∙◌, Option, none, some, List, [], ◌∷◌, ◌++◌, ◌==◌,
  string_eq, if◌then◌else◌, is_empty, Bool-cases, ◌⊎◌, inl, inr, arith, All,
}
use llmops_gateway.Prelude.Texts.{starts_with}
use llmops_gateway.Caching.Hashing.{lstrip, rstrip}
use llmops_gateway.Domain.Chat.{ChatRequest}
use llmops_gateway.Errors.{Exn}
use llmops_gateway.Json.{
  Json, null, text, arr, obj, Items, nil, cons, Fields, find, fields, items, get,
}
use llmops_gateway.Adapters.Http.{Client, HttpFailure, HttpResponse, opened, failure}
use llmops_gateway.Adapters.Lines.{
  skip, stop, emit, Parsed, run_lines, ended_by, value_of, read_stream, read_outcome,
}
use llmops_gateway.Adapters.Sse.{
  Reads, ClientLaws, field_line, prefix_field_line, field_line_not_empty, loads_line, not_done,
}
use llmops_gateway.Adapters.OpenAi.{build_payload, stream_impl, step, read_choices, delta_content}

-- An event of the stream. `content` is the chunk that this gateway itself sends; in `delta_of` and
-- `no_content` the event, its first choice and the delta are any dictionaries, with a text as
-- content and without one; `no_choices` has the empty list; `garbled` is a line of data that is no
-- JSON, `other_line` a comment or the name of an event.
pub data Sent : Type 0 where
  content : String → Sent
  delta_of : Fields → Fields → Items → Fields → String → Sent
  no_content : Fields → Fields → Items → Fields → Sent
  no_choices without_choices : Fields → Sent
  blank : Sent
  garbled other_line : String → Sent

-- `{"choices": [{"delta": {"content": item}}]}`
abbrev pub chunk_event : String → Json
chunk_event s = obj (
    fields (
      (
        "choices",
        arr (items (obj (fields (("delta", obj (fields (("content", text s) ∷ []))) ∷ [])) ∷ [])),
      )
      ∷ []))

abbrev pub line_of : (Json → String) → Sent → String
line_of dumps (content s) = field_line "data:" (dumps (chunk_event s))
line_of dumps (delta_of fs gs more ds s) = field_line "data:" (dumps (obj fs))
line_of dumps (no_content fs gs more ds) = field_line "data:" (dumps (obj fs))
line_of dumps (no_choices fs) = field_line "data:" (dumps (obj fs))
line_of dumps (without_choices fs) = field_line "data:" (dumps (obj fs))
line_of dumps blank = ""
line_of dumps (garbled s) = field_line "data:" s
line_of dumps (other_line s) = s

abbrev pub frames_of : (Json → String) → List Sent → List String
frames_of dumps [] = []
frames_of dumps (s ∷ rest) = line_of dumps s ∷ frames_of dumps rest

-- The texts that the events carry: an empty one is not passed on.
abbrev pub texts_of : List Sent → List String
texts_of [] = []
texts_of (content s ∷ rest) = let later = texts_of rest in if is_empty s then later else s ∷ later
texts_of (delta_of fs gs more ds s ∷ rest) =
    let later = texts_of rest in if is_empty s then later else s ∷ later
texts_of (no_content fs gs more ds ∷ rest) = texts_of rest
texts_of (no_choices fs ∷ rest) = texts_of rest
texts_of (without_choices fs ∷ rest) = texts_of rest
texts_of (blank ∷ rest) = texts_of rest
texts_of (garbled s ∷ rest) = texts_of rest
texts_of (other_line s ∷ rest) = texts_of rest

-- The first choice of an event and its delta.
abbrev HasDelta : Fields → Fields → Items → Fields → Type 0
HasDelta fs gs more ds =
    (find "choices" fs ≡ some (arr (cons (obj gs) more))) × (find "delta" gs ≡ some (obj ds))

-- What the events must be to deserve their names.
abbrev pub IsSent : {W : Type 0} → Client W → (Json → String) → Sent → Type 0
IsSent c dumps (content s) = Reads c dumps (chunk_event s)
IsSent c dumps (delta_of fs gs more ds s) =
    HasDelta fs gs more ds × (find "content" ds ≡ some (text s)) × Reads c dumps (obj fs)
IsSent c dumps (no_content fs gs more ds) =
    HasDelta fs gs more ds
    × ((find "content" ds ≡ none) ⊎ (find "content" ds ≡ some null))
    × Reads c dumps (obj fs)
IsSent c dumps (no_choices fs) = (find "choices" fs ≡ some (arr nil)) × Reads c dumps (obj fs)
IsSent c dumps (without_choices fs) = (find "choices" fs ≡ none) × Reads c dumps (obj fs)
IsSent c dumps blank = Unit
IsSent c dumps (garbled s) =
    (c.loads (value_of "data:" (field_line "data:" s)) ≡ none)
    × ((value_of "data:" (field_line "data:" s) == "[DONE]") ≡ false)
IsSent c dumps (other_line s) = starts_with s "data:" ≡ false

read_content :
    (as_chunk : Json → String) (s : String)
    → read_choices as_chunk (get "choices" (chunk_event s))
      ≡ (if is_empty s then skip else emit (as_chunk (text s)))
unfolding read_choices delta_content
read_content as_chunk s = ground arith

read_delta_of :
    (as_chunk : Json → String) (fs gs ds : Fields) (more : Items) (s : String)
    → HasDelta fs gs more ds
    → find "content" ds ≡ some (text s)
    → read_choices as_chunk (get "choices" (obj fs))
      ≡ (if is_empty s then skip else emit (as_chunk (text s)))
unfolding read_choices delta_content
read_delta_of as_chunk fs gs ds more s (choice, delta) h =
    rw (choice, delta, h) (elim (Bool-cases (is_empty s)) [ inl e ↦ rw e | inr e ↦ rw e ])

read_no_content :
    (as_chunk : Json → String) (fs gs ds : Fields) (more : Items)
    → HasDelta fs gs more ds
    → (find "content" ds ≡ none) ⊎ (find "content" ds ≡ some null)
    → read_choices as_chunk (get "choices" (obj fs)) ≡ skip
unfolding read_choices delta_content
read_no_content as_chunk fs gs ds more (choice, delta) (inl h) = rw (choice, delta, h)
read_no_content as_chunk fs gs ds more (choice, delta) (inr h) = rw (choice, delta, h)

read_no_choices :
    (as_chunk : Json → String) (fs : Fields)
    → find "choices" fs ≡ some (arr nil)
    → read_choices as_chunk (get "choices" (obj fs)) ≡ skip
unfolding read_choices
read_no_choices as_chunk fs h = rw h

read_without :
    (as_chunk : Json → String) (fs : Fields)
    → find "choices" fs ≡ none
    → read_choices as_chunk (get "choices" (obj fs)) ≡ skip
unfolding read_choices
read_without as_chunk fs h = rw h

-- The lines after the mark of the end are not read.
abbrev pub tail_lines : Option (List String) → List String
tail_lines none = []
tail_lines (some rest) = field_line "data:" "[DONE]" ∷ rest

abbrev pub ended_as : Option (List String) → Option HttpFailure → Option Exn
ended_as none none = none
ended_as none (some f) = some (failure f)
ended_as (some rest) cut_off = none

module _ {W : Type 0} (c : Client W) where
  -- A line of data that is no mark of the end.
  step-data :
      (k : ℕ) (s : String) (v : Json)
      → c.loads (value_of "data:" (field_line "data:" s)) ≡ some v
      → (value_of "data:" (field_line "data:" s) == "[DONE]") ≡ false
      → step c k tt (field_line "data:" s) ≡ (tt, read_choices c.as_chunk (get "choices" v))
  unfolding step
  step-data k s v h d = rw (field_line_not_empty "data:" s refl, prefix_field_line "data:" s, h, d)

  step-garbled :
      (k : ℕ) (s : String)
      → c.loads (value_of "data:" (field_line "data:" s)) ≡ none
      → (value_of "data:" (field_line "data:" s) == "[DONE]") ≡ false
      → step c k tt (field_line "data:" s) ≡ (tt, skip)
  unfolding step
  step-garbled k s h d = rw (field_line_not_empty "data:" s refl, prefix_field_line "data:" s, h, d)

  step-done : (k : ℕ) → step c k tt (field_line "data:" "[DONE]") ≡ (tt, stop)
  unfolding step value_of lstrip rstrip
  step-done k = refl

  step-other : (k : ℕ) (s : String) → starts_with s "data:" ≡ false → step c k tt s ≡ (tt, skip)
  unfolding step
  step-other k s h = ground arith

module _ {W : Type 0} (c : Client W) (dumps : Json → String) (laws : ClientLaws c) where
  abbrev after_sent : Sent → Parsed → Parsed
  after_sent (content s) p = if is_empty s then p else record p { texts = s ∷ p.texts }
  after_sent (delta_of fs gs more ds s) p =
      if is_empty s then p else record p { texts = s ∷ p.texts }
  after_sent (no_content fs gs more ds) p = p
  after_sent (no_choices fs) p = p
  after_sent (without_choices fs) p = p
  after_sent blank p = p
  after_sent (garbled s) p = p
  after_sent (other_line s) p = p

  step-event :
      (k : ℕ) (v : Json)
      → Reads c dumps v
      → step c k tt (field_line "data:" (dumps v)) ≡ (tt, read_choices c.as_chunk (get "choices" v))
  step-event k v h = step-data c k (dumps v) v (loads_line c dumps v h) (not_done c dumps v h laws)

  run_sent :
      (k : ℕ) (s : Sent) (rest : List String)
      → IsSent c dumps s
      → run_lines (step c k) tt (line_of dumps s ∷ rest)
        ≡ after_sent s (run_lines (step c k) tt rest)
  unfolding run_lines
  run_sent k (content s) rest h =
      let e = step-event k (chunk_event s) h in
      elim (Bool-cases (is_empty s)) [
        | inl n ↦ rw (e, read_content c.as_chunk s, n)
        | inr n ↦ rw (e, read_content c.as_chunk s, n, laws.as_chunk-text s)
      ]
  run_sent k (delta_of fs gs more ds s) rest h =
      let e = step-event k (obj fs) h.2 in
      elim (Bool-cases (is_empty s)) [
        | inl n ↦ rw (e, read_delta_of c.as_chunk fs gs ds more s h.0 h.1, n)
        | inr n ↦ rw (e, read_delta_of c.as_chunk fs gs ds more s h.0 h.1, n, laws.as_chunk-text s)
      ]
  run_sent k (no_content fs gs more ds) rest h =
      rw (step-event k (obj fs) h.2, read_no_content c.as_chunk fs gs ds more h.0 h.1)
  run_sent k (no_choices fs) rest h =
      rw (step-event k (obj fs) h.1, read_no_choices c.as_chunk fs h.0)
  run_sent k (without_choices fs) rest h =
      rw (step-event k (obj fs) h.1, read_without c.as_chunk fs h.0)
  run_sent k blank rest h = rw (step-other c k "" refl)
  run_sent k (garbled s) rest h = rw (step-garbled c k s h.0 h.1)
  run_sent k (other_line s) rest h = rw (step-other c k s h)

  abbrev after_all : List Sent → Parsed → Parsed
  after_all sent p = record { texts = texts_of sent ++ p.texts; ending = p.ending }

  after_sent-all :
      (s : Sent) (sent : List Sent) (p : Parsed)
      → after_sent s (after_all sent p) ≡ after_all (s ∷ sent) p
  after_sent-all (content s) sent p = ground arith
  after_sent-all (delta_of fs gs more ds s) sent p = ground arith
  after_sent-all (no_content fs gs more ds) sent p = refl
  after_sent-all (no_choices fs) sent p = refl
  after_sent-all (without_choices fs) sent p = refl
  after_sent-all blank sent p = refl
  after_sent-all (garbled s) sent p = refl
  after_sent-all (other_line s) sent p = refl

  run_sequence :
      (k : ℕ) (sent : List Sent) (rest : List String)
      → All (IsSent c dumps) sent
      → run_lines (step c k) tt (frames_of dumps sent ++ rest)
        ≡ after_all sent (run_lines (step c k) tt rest)
  run_sequence k [] rest h = refl
  run_sequence k (s ∷ sent) rest h =
      run_sent k s (frames_of dumps sent ++ rest) h.0
      ∙ (ap (after_sent s) (run_sequence k sent rest h.1)
          ∙ after_sent-all s sent (run_lines (step c k) tt rest))

  read_tail :
      (k : ℕ) (sent : List Sent) (finished : Option (List String)) (cut_off : Option HttpFailure)
      → ended_by (after_all sent (run_lines (step c k) tt (tail_lines finished))).ending cut_off
        ≡ ended_as finished cut_off
  unfolding run_lines ended_by
  read_tail k sent none none = refl
  read_tail k sent none (some f) = refl
  read_tail k sent (some rest) cut_off = rw (step-done c k)

  no_more :
      (k : ℕ) (finished : Option (List String))
      → (run_lines (step c k) tt (tail_lines finished)).texts ≡ []
  unfolding run_lines
  no_more k none = refl
  no_more k (some rest) = rw (step-done c k)

  -- Where the server answers 200, sends in any order events that carry a text or no content, events
  -- with the empty list of choices or without choices, blank lines, lines of data that are no JSON
  -- and other lines, and then either the mark of the end or nothing more: the stream yields exactly
  -- the texts that the events carry that are not empty, in their order, whatever follows the mark.
  -- The events that are JSON must be read back as they were written. The stream ends without an exception if the mark came or the
  -- connection was not cut off, and otherwise with the exception for the failure that cut it off.
  pub stream_impl-frames_of :
      (request : ChatRequest) (w w' : W) (head : HttpResponse) (sent : List Sent)
      (finished : Option (List String)) (cut_off : Option HttpFailure)
      → head.status_code ≡ 200
      → All (IsSent c dumps) sent
      → c.stream "/chat/completions" (build_payload request true) w ≡ (
        opened (record {
          head = head;
          lines = frames_of dumps sent ++ tail_lines finished;
          cut_off = cut_off;
        }),
        w',
      )
      → stream_impl c request w
        ≡ (record { chunks = texts_of sent; ended = ended_as finished cut_off }, w')
  unfolding stream_impl read_outcome read_stream
  stream_impl-frames_of request w w' head sent finished cut_off s h e = rw (
    e,
    s,
    run_sequence head.status_code sent (tail_lines finished) h,
    read_tail head.status_code sent finished cut_off,
    no_more head.status_code finished,
    append-nil,
  )
