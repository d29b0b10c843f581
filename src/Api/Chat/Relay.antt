-- ===== src/Api/Chat/Relay.antt =====
-- A client of the gateway that reads a stream as `OpenAIProvider` does. The reader of lines is a
-- parameter: the text of JSON has no line break, so a frame is a line and an empty one.
use llmops_gateway.Prelude.{
  String, true, ◌≡◌, refl, ap, ◌∙◌, Option, none, some, List, [], ◌∷◌, ◌++◌, map, All, arith,
  is_empty, not, select,
}
use mathlib.Core.List.{append-nil}
use llmops_gateway.Domain.Chat.{ChatRequest, ChatResponse}
use llmops_gateway.Errors.{Exn}
use llmops_gateway.Json.{Json, obj}
use llmops_gateway.Gateway.Streams.{ChatStream}
use llmops_gateway.Adapters.Http.{Client, HttpFailure, HttpResponse, opened, failure}
use llmops_gateway.Adapters.Sse.{Reads, ClientLaws, field_line}
use llmops_gateway.Adapters.OpenAi
use llmops_gateway.Adapters.OpenAi.Frames.{
  Sent, content, without_choices, blank, frames_of, line_of, texts_of, IsSent, tail_lines, ended_as,
  stream_impl-frames_of,
}
use llmops_gateway.Api.Chat.{
  Writer, sse, frame, content_event, metadata_fields, metadata_frames, done_frames,
}

-- The lines of the frames.
abbrev pub lines_of : (String → List String) → List String → List String
lines_of split_lines [] = []
lines_of split_lines (f ∷ rest) = split_lines f ++ lines_of split_lines rest

abbrev pub sent_chunks : List String → List Sent
sent_chunks [] = []
sent_chunks (s ∷ rest) = content s ∷ blank ∷ sent_chunks rest

abbrev pub sent_metadata : Writer → Option ChatResponse → List Sent
sent_metadata writer none = []
sent_metadata writer (some r) = without_choices (metadata_fields writer r) ∷ blank ∷ []

-- What stands after the events: the mark of the end and its blank line, or nothing.
abbrev pub finished_as : Option Exn → Option (List String)
finished_as none = some ("" ∷ [])
finished_as (some e) = none

abbrev pub relayed_end : Option Exn → Option HttpFailure → Option Exn
relayed_end none cut_off = none
relayed_end (some e) none = none
relayed_end (some e) (some f) = some (failure f)

-- The reader of lines makes a line and an empty one of the frame.
abbrev pub IsLine : (String → List String) → String → Type 0
IsLine split_lines s = split_lines (frame s) ≡ field_line "data:" s ∷ "" ∷ []

-- An event is read back as it was written, on a line of its own.
abbrev pub Carried :
    {W : Type 0} → Client W → (Json → String) → (String → List String) → Json → Type 0
Carried c dumps split_lines v = Reads c dumps v × IsLine split_lines (dumps v)

abbrev pub MetadataCarried :
    {W : Type 0} → Client W → Writer → (String → List String) → Option ChatResponse → Type 0
MetadataCarried c writer split_lines none = Unit
MetadataCarried c writer split_lines (some r) =
    Carried c writer.dumps split_lines (obj (metadata_fields writer r))

abbrev pub ChunksCarried :
    {W : Type 0} → Client W → Writer → (String → List String) → List String → Type 0
ChunksCarried c writer split_lines chunks =
    All (λ s. Carried c writer.dumps split_lines (content_event s)) chunks

texts-chunks :
    (chunks : List String) (rest : List Sent)
    → texts_of (sent_chunks chunks ++ rest) ≡ select (λ s. not (is_empty s)) chunks ++ texts_of rest
texts-chunks [] rest = refl
texts-chunks (s ∷ chunks) rest = ground (arith, texts-chunks chunks rest)

texts-metadata :
    (writer : Writer) (m : Option ChatResponse) → texts_of (sent_metadata writer m) ≡ []
texts-metadata writer none = refl
texts-metadata writer (some r) = refl

module _ {W : Type 0} (c : Client W) (writer : Writer) where
  module _ (split_lines : String → List String) where
    IsSent-All :
        (chunks : List String) (m : Option ChatResponse)
        → ChunksCarried c writer split_lines chunks
        → MetadataCarried c writer split_lines m
        → All (IsSent c writer.dumps) (sent_chunks chunks ++ sent_metadata writer m)
    IsSent-All [] none h k = tt
    IsSent-All [] (some r) h k = ((refl, k.0), (tt, tt))
    IsSent-All (s ∷ chunks) m h k = (h.0.0, (tt, IsSent-All chunks m h.1 k))

    lines-chunks :
        (chunks rest : List String)
        → ChunksCarried c writer split_lines chunks
        → lines_of split_lines
            (map (λ item. frame (writer.dumps (content_event item))) chunks ++ rest)
          ≡ frames_of writer.dumps (sent_chunks chunks) ++ lines_of split_lines rest
    lines-chunks [] rest h = refl
    lines-chunks (s ∷ chunks) rest h = rw (h.0.1, lines-chunks chunks rest h.1)

    lines-metadata :
        (m : Option ChatResponse) (rest : List String)
        → MetadataCarried c writer split_lines m
        → lines_of split_lines (metadata_frames writer m ++ rest)
          ≡ frames_of writer.dumps (sent_metadata writer m) ++ lines_of split_lines rest
    lines-metadata none rest h = refl
    lines-metadata (some r) rest h = rw h.1

    lines-done :
        (ended : Option Exn)
        → IsLine split_lines "[DONE]"
        → lines_of split_lines (done_frames ended) ≡ tail_lines (finished_as ended)
    lines-done none h = rw h
    lines-done (some e) h = refl

    frames-append :
        (xs ys : List Sent) (rest : List String)
        → frames_of writer.dumps xs ++ (frames_of writer.dumps ys ++ rest)
          ≡ frames_of writer.dumps (xs ++ ys) ++ rest
    frames-append [] ys rest = refl
    frames-append (x ∷ xs) ys rest = ap (λ l. line_of writer.dumps x ∷ l) (frames-append xs ys rest)

    lines-sse :
        (s : ChatStream)
        → ChunksCarried c writer split_lines s.chunks
        → MetadataCarried c writer split_lines s.metadata
        → IsLine split_lines "[DONE]"
        → lines_of split_lines (sse writer s)
          ≡ frames_of writer.dumps (sent_chunks s.chunks ++ sent_metadata writer s.metadata)
            ++ tail_lines (finished_as s.ended)
    unfolding sse
    lines-sse s h k d =
        lines-chunks s.chunks (metadata_frames writer s.metadata ++ done_frames s.ended) h
        ∙ (ap (λ l. frames_of writer.dumps (sent_chunks s.chunks) ++ l)
              (lines-metadata s.metadata (done_frames s.ended) k
                ∙ ap (λ l. frames_of writer.dumps (sent_metadata writer s.metadata) ++ l)
                    (lines-done s.ended d))
            ∙ frames-append (sent_chunks s.chunks) (sent_metadata writer s.metadata)
                (tail_lines (finished_as s.ended)))

    texts_lem :
        (s : ChatStream)
        → texts_of (sent_chunks s.chunks ++ sent_metadata writer s.metadata)
          ≡ select (λ x. not (is_empty x)) s.chunks
    texts_lem s =
        texts-chunks s.chunks (sent_metadata writer s.metadata)
        ∙ rw (texts-metadata writer s.metadata, append-nil)

    ended_lem :
        (ended : Option Exn) (cut_off : Option HttpFailure)
        → ended_as (finished_as ended) cut_off ≡ relayed_end ended cut_off
    ended_lem none cut_off = refl
    ended_lem (some e) none = refl
    ended_lem (some e) (some f) = refl

    -- A client that reads the body that `_sse` writes as the OpenAI adapter does, where the events
    -- are read back as they were written and a frame is read as a line and an empty one, gets exactly
    -- the texts of the gateway's stream that are not empty, in their order, whether or not the metadata
    -- came. It ends without an exception if the gateway's stream did, and otherwise with the
    -- exception for the failure that cut the connection off, if one did.
    pub sse-stream_impl :
        (laws : ClientLaws c) (s : ChatStream) (request : ChatRequest) (w w' : W)
        (head : HttpResponse) (cut_off : Option HttpFailure)
        → head.status_code ≡ 200
        → ChunksCarried c writer split_lines s.chunks
        → MetadataCarried c writer split_lines s.metadata
        → IsLine split_lines "[DONE]"
        → c.stream "/chat/completions" (OpenAi.build_payload request true) w ≡ (
          opened (record {
            head = head;
            lines = lines_of split_lines (sse writer s);
            cut_off = cut_off;
          }),
          w',
        )
        → OpenAi.stream_impl c request w ≡ (
          record {
            chunks = select (λ x. not (is_empty x)) s.chunks;
            ended = relayed_end s.ended cut_off;
          },
          w',
        )
    sse-stream_impl laws s request w w' head cut_off status h k d sent =
        stream_impl-frames_of c writer.dumps laws request w w' head
          (sent_chunks s.chunks ++ sent_metadata writer s.metadata) (finished_as s.ended) cut_off
          status (IsSent-All s.chunks s.metadata h k) (rw (lines-sse s h k d) at sent)
        ∙ rw (texts_lem s, ended_lem s.ended cut_off)
