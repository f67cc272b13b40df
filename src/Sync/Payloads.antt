-- ===== src/Sync/Payloads.antt =====
-- The payloads that the extractor stores (internal/sync/extractor.go), as the transformer reads them
-- (internal/transformer/service.go).
use gitlab_elt.Common.{
  ℕ, String, Option, none, some, List, [], ◌∷◌, ◌≡◌, refl, ap, ap₂, subst, ◌∙◌, sym, map, All,
}
use gitlab_elt.Domain.{GitlabLabelEvent, GitlabNote, int32}
use gitlab_elt.Sync.{
  Extractor, RawEventData, raw_event, cons_event, label_raw_events, note_raw_events,
}

-- What is written, if anything, is read as the value.
abbrev pub ReadsAs : {A : Type 0} → (String → Option A) → A → Option String → Type 0
ReadsAs decode value none = Unit
ReadsAs decode value (some t) = decode t ≡ some value

read_back :
    {A : Type 0} (decode : String → Option A) (value : A) (o : Option String) (t : String)
    → ReadsAs decode value o
    → o ≡ some t
    → decode t ≡ some value
read_back decode value none t h written = cc
read_back decode value (some u) t h written =
    let same : u ≡ t = cc in subst (λ v. decode v ≡ some value) same h

module _ (e : Extractor) where
  abbrev pub LabelReadsBack : GitlabLabelEvent → Type 0
  LabelReadsBack le = ReadsAs e.codec.decode_label_event le (e.codec.encode_label_event le)

  abbrev pub NoteReadsBack : GitlabNote → Type 0
  NoteReadsBack n = ReadsAs e.codec.decode_note n (e.codec.encode_note n)

  abbrev pub read_label : RawEventData → ℕ × String × Option GitlabLabelEvent
  read_label evt = (evt.issue_iid, evt.event_type, e.codec.decode_label_event evt.raw_payload)

  abbrev pub read_note : RawEventData → ℕ × String × Option GitlabNote
  read_note evt = (evt.issue_iid, evt.event_type, e.codec.decode_note evt.raw_payload)

  -- A step of the loops that marshal, for any way of reading the events.
  cons_event-read :
      {B : Type 0} (read : RawEventData → B) (event : String → RawEventData) (value : B)
      → (payload : Option String) (rest : Option (List RawEventData)) (evts : List RawEventData)
        (values : List B)
      → ((t : String) → payload ≡ some t → read (event t) ≡ value)
      → ((more : List RawEventData) → rest ≡ some more → map read more ≡ values)
      → cons_event event payload rest ≡ some evts
      → map read evts ≡ value ∷ values
  cons_event-read read event value none rest evts values h k done = cc
  cons_event-read read event value (some t) none evts values h k done = cc
  cons_event-read read event value (some t) (some more) evts values h k done =
      let same : event t ∷ more ≡ evts = cc in
      ap (map read) (sym same) ∙ ap₂ (λ x xs. x ∷ xs) (h t refl) (k more refl)

  label_raw_events-read :
      (project_id iid : ℕ) (les : List GitlabLabelEvent) (evts : List RawEventData)
      → All LabelReadsBack les
      → label_raw_events e project_id iid les ≡ some evts
      → map read_label evts ≡ map (λ le. (int32 iid, "label_event", some le)) les
  unfolding label_raw_events
  label_raw_events-read project_id iid [] evts back h =
      let same : [] ≡ evts = cc in ap (map read_label) (sym same)
  label_raw_events-read project_id iid (le ∷ les) evts back h =
      cons_event-read read_label (raw_event "label_event" project_id iid le.id)
        (int32 iid, "label_event", some le) (e.codec.encode_label_event le)
        (label_raw_events e project_id iid les) evts _
        (λ t written.
          ap (λ o. (int32 iid, "label_event", o))
            (read_back e.codec.decode_label_event le (e.codec.encode_label_event le) t back.0
              written))
        (λ more rest. label_raw_events-read project_id iid les more back.1 rest) h

  note_raw_events-read :
      (project_id iid : ℕ) (ns : List GitlabNote) (evts : List RawEventData)
      → All NoteReadsBack ns
      → note_raw_events e project_id iid ns ≡ some evts
      → map read_note evts ≡ map (λ n. (int32 iid, "note", some n)) ns
  unfolding note_raw_events
  note_raw_events-read project_id iid [] evts back h =
      let same : [] ≡ evts = cc in ap (map read_note) (sym same)
  note_raw_events-read project_id iid (n ∷ ns) evts back h =
      cons_event-read read_note (raw_event "note" project_id iid n.id) (int32 iid, "note", some n)
        (e.codec.encode_note n) (note_raw_events e project_id iid ns) evts _
        (λ t written.
          ap (λ o. (int32 iid, "note", o))
            (read_back e.codec.decode_note n (e.codec.encode_note n) t back.0 written))
        (λ more rest. note_raw_events-read project_id iid ns more back.1 rest) h

  -- If what `encoding/json` writes of each label event and each note of an issue is read back as the
  -- same value, then the raw events made of them are read by the transformer as these values, all of
  -- them and in their order, each with the number of the issue and its kind.
  pub raw_events-read :
      (project_id iid : ℕ) (les : List GitlabLabelEvent) (ns : List GitlabNote)
      → {labels notes : List RawEventData} → All LabelReadsBack les
      → All NoteReadsBack ns
      → label_raw_events e project_id iid les ≡ some labels
      → note_raw_events e project_id iid ns ≡ some notes
      → (map read_label labels ≡ map (λ le. (int32 iid, "label_event", some le)) les)
        × (map read_note notes ≡ map (λ n. (int32 iid, "note", some n)) ns)
  raw_events-read project_id iid les ns {labels} {notes} back_label back_note h k = (
    label_raw_events-read project_id iid les labels back_label h,
    note_raw_events-read project_id iid ns notes back_note k,
  )
