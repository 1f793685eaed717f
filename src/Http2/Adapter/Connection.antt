-- ===== src/Http2/Adapter/Connection.antt =====
-- solvetls/http2/adapter.py: `H2Adapter`.
use solvetls.Base.{
  ℕ, ◌+◌, true, false, not, List, [], ◌∷◌, ◌++◌, map, length, none, some, ltb, ◌==◌, if◌then◌else◌,
}
use solvetls.Base.Text.{codes}
use solvetls.Exec.{Result, ok, err, Exec, pure, raise, gets, modify, ◌>>=◌, ◌>>◌}
use solvetls.Wire.Bytes.{Bytes}
use solvetls.HttpFields.Response.{text_eq}
use solvetls.Http2.Frames.Codes.{enhance_your_calm}
use solvetls.Http2.Frames.Data.{Settings}
use solvetls.Http2.Frames.Settings.{dict_set}
use solvetls.Http2.Frames.Build.{BuildError, build_settings_frame}
use solvetls.Http2.Validation.{Fields}
use solvetls.Http2.Library.{
  LibraryError, protocol, Event, request_received, trailers_received, data_received, stream_ended,
  stream_reset, other_event, Library,
}

abbrev pub header_table_setting : ℕ
header_table_setting = 1

abbrev pub max_header_table_size_changes : ℕ
max_header_table_size_changes = 128

-- The h2 connection, and the adapter's own field.
pub record Adapter (C : Type 0) : Type 0 where
  pub h2 : C
  pub header_table_size_changes : ℕ

-- What leaves a method: an exception of h2, or a ProtocolError; the RuntimeError of an answer that is not
-- the ACK; and a ValueError of the builder of frames.
pub data AdapterError : Type 0 where
  h2_error : LibraryError → AdapterError
  unexpected_response : AdapterError
  builder_error : BuildError → AdapterError

abbrev pub Adapting : Type 0 → Type 0 → Type 0
Adapting C A = Exec (Adapter C) AdapterError A

-- The headers of a request or of trailers, in place of those that h2 was given to work with.
abbrev pub restore : Fields → Event → Event
restore headers (request_received i fields ended) = request_received i headers ended
restore headers (trailers_received i fields) = trailers_received i headers
restore headers (data_received i content n) = data_received i content n
restore headers (stream_ended i) = stream_ended i
restore headers (stream_reset i) = stream_reset i
restore headers other_event = other_event

-- The local variables of the loop over the entries: the table's size, its changes, and what is left.
pub record Filtered : Type 0 where
  pub table_size : ℕ
  pub table_changes : ℕ
  pub working : List (ℕ × ℕ)

-- dict(working)
unfoldable pub dict_of : Settings → List (ℕ × ℕ) → Settings
dict_of d [] = d
dict_of d ((k, v) ∷ es) = dict_of (dict_set k v d) es

abbrev pub built : {C : Type 0} → Result BuildError Bytes → Adapting C Bytes
built (ok wire) = pure wire
built (err e) = raise (builder_error e)

abbrev pub from_h2 : {A : Type 0} → Result LibraryError A → Result AdapterError A
from_h2 (ok a) = ok a
from_h2 (err e) = err (h2_error e)

-- An operation of h2 on the connection of the adapter.
unfoldable pub on_h2 : {C A : Type 0} → Exec C LibraryError A → Adapting C A
on_h2 m s = let (r, c) = m s.h2 in (from_h2 r, record s { h2 = c })

module _ {C : Type 0} (library : Library C) where
  unfoldable pub keep_entry : ℕ × ℕ → Filtered → Filtered
  keep_entry (identifier, value) f =
      if not (library.is_supported identifier)
      then f
      else if identifier == header_table_setting
      then (if value == f.table_size then f else record {
        table_size = value;
        table_changes = f.table_changes + 1;
        working = f.working ++ (identifier, value) ∷ [];
      })
      else record f { working = f.working ++ (identifier, value) ∷ [] }

  unfoldable pub filter_entries : List (ℕ × ℕ) → Filtered → Filtered
  filter_entries [] f = f
  filter_entries (e ∷ es) f = filter_entries es (keep_entry e f)

  unfoldable pub receive_data : Bytes → Adapting C (List Event)
  receive_data wire = do
    events ← on_h2 (library.receive_data wire)
    originals ← gets (λ s. library.original_headers s.h2)
    pure (map (restore originals) events)

  abbrev pub take_output : Adapting C Bytes
  take_output s =
      (ok (library.data_to_send s.h2).0, record s { h2 = (library.data_to_send s.h2).1 })

  -- The ACK of a settings frame that is not the last is discarded; anything else is a RuntimeError.
  unfoldable pub discard_ack : Adapting C (Unit {0})
  discard_ack = do
    acknowledgment ← take_output
    expected ← built (build_settings_frame none true)
    if not (text_eq acknowledgment expected) then raise unexpected_response else pure tt

  unfoldable pub replay : List (ℕ × ℕ) → Adapting C (Unit {0})
  replay [] = pure tt
  replay (e ∷ []) = do
    wire ← built (build_settings_frame (some (e ∷ [])) false)
    receive_data wire
    pure tt
  replay (e ∷ f ∷ es) = do
    wire ← built (build_settings_frame (some (e ∷ [])) false)
    receive_data wire
    discard_ack
    replay (f ∷ es)

  unfoldable pub apply_filtered : Filtered → Adapting C (Unit {0})
  apply_filtered f = do
    changes ← gets (λ s. s.header_table_size_changes)
    if ltb max_header_table_size_changes (changes + f.table_changes)
        then (do
          on_h2 (library.close_connection enhance_your_calm none)
          raise (
              h2_error
                (protocol (codes "HTTP/2 header table update limit exceeded") enhance_your_calm)))
        else (do
          modify (λ s. record s {
            header_table_size_changes = s.header_table_size_changes + f.table_changes;
          })
          if length f.working == length (dict_of [] f.working)
              then (do
                wire ← built (build_settings_frame (some (dict_of [] f.working)) false)
                receive_data wire
                pure tt)
              else replay f.working)

  unfoldable pub apply_settings : List (ℕ × ℕ) → Adapting C (Unit {0})
  apply_settings entries = do
    table_size ← gets (λ s. library.header_table_size s.h2)
    apply_filtered (
        filter_entries entries
          (record { table_size = table_size; table_changes = 0; working = [] }))
