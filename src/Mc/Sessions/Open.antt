-- ===== src/Mc/Sessions/Open.antt =====
-- pibot/mc/sessions.py: the sessions that have not ended.
use mathlib.Core.Path.{subst}
use pibot.Prelude.{
  sym, arith, ◌≡◌, refl, Bool, true, false, ◌||◌, Bool-cases, Option, none, some, Option-cases, inl,
  inr, List, [], ◌∷◌, All, All-append, All-imp,
}
use pibot.Python.Text.{Text, text_eq, one_of}
use pibot.Python.Text.Laws.{text_eq_refl}
use pibot.Python.Result.{Result, ok, err, ok-injective}
use pibot.Mc.Sessions.{
  SessionRow, EventRow, SessionRecorder, Saving, saved, write_raised, commit_raised, open_recorder,
  session_row, insert_session, end_session, finished, stop, stop_of, stop_active, inserted, begin,
  start, save_event, note_event, add_event,
}

-- The session that a stop leaves open, if sqlite could not write that it has ended.
abbrev pub left_by_stop : Saving → Option Text → List Text → List Text
left_by_stop (write_raised why) (some sid) left = sid ∷ left
left_by_stop _ _ left = left

-- The session that a start leaves open and without being active, if its commit raised.
abbrev pub left_by_start : Text → Saving → List Text → List Text
left_by_start sid (commit_raised why) left = sid ∷ left
left_by_start _ _ left = left

unfoldable with_open : Bool → Text → List Text → List Text
with_open true sid ids = ids
with_open false sid ids = sid ∷ ids

module _ {F : Type 0} where
  abbrev has_ended : SessionRow F → Bool
  has_ended row = elim row.ended [ none ↦ false | some t ↦ true ]

  abbrev is_active : Option Text → SessionRow F → Bool
  is_active none row = false
  is_active (some sid) row = text_eq row.id sid

  -- A row has ended, or it is the active session's, or one of the given ids.
  abbrev pub IsClosed : List Text → Option Text → SessionRow F → Type 0
  IsClosed left active row = (has_ended row || (is_active active row || one_of row.id left)) ≡ true

  abbrev pub IsSound : List Text → SessionRecorder F → Type 0
  IsSound left r = All (IsClosed left r.active_id) r.sessions

  -- The sessions that have not ended.
  unfoldable pub open_ids : List (SessionRow F) → List Text
  unfolding with_open
  open_ids [] = []
  open_ids (row ∷ rows) = with_open (has_ended row) row.id (open_ids rows)

  IsClosed-widen :
      (sid : Text) (left : List Text) (active : Option Text) (row : SessionRow F)
      → IsClosed left active row
      → IsClosed (sid ∷ left) active row
  unfolding one_of
  IsClosed-widen sid left active row p = ground (arith, p)

  IsClosed-left :
      (sid : Text) (left : List Text) (row : SessionRow F)
      → IsClosed left (some sid) row
      → IsClosed (sid ∷ left) none row
  unfolding one_of
  IsClosed-left sid left row p = ground (arith, p)

  IsClosed-none :
      (left : List Text) (active : Option Text) (row : SessionRow F)
      → IsClosed left none row
      → IsClosed left active row
  IsClosed-none left active row p = ground (arith, p)

  end_session-IsClosed :
      (now : F) (sid : Text) (left : List Text) (rows : List (SessionRow F))
      → All (IsClosed left (some sid)) rows
      → All (IsClosed left none) (end_session now sid rows)
  unfolding end_session
  end_session-IsClosed now sid left [] h = tt
  end_session-IsClosed now sid left (row ∷ rows) (p, h) = (
    elim (Bool-cases (text_eq row.id sid)) [ inl e ↦ rw e refl | inr e ↦ rw e (rw e at p) ],
    end_session-IsClosed now sid left rows h,
  )

  -- No session is active any more, and those that are open are among the given ids.
  abbrev Stopped : List Text → SessionRecorder F → Type 0
  Stopped left r = (r.active_id ≡ none) × All (IsClosed left none) r.sessions

  stop_of-Stopped :
      (now : F) (how : Saving) (active : Option Text) (left : List Text) (r : SessionRecorder F)
      → All (IsClosed left active) r.sessions
      → r.active_id ≡ active
      → Stopped (left_by_stop how active left) (stop_of now how active r).1
  unfolding stop_of finished
  stop_of-Stopped now saved none left r h e = (e, h)
  stop_of-Stopped now (write_raised why) none left r h e = (e, h)
  stop_of-Stopped now (commit_raised why) none left r h e = (e, h)
  stop_of-Stopped now saved (some sid) left r h e =
      (refl, end_session-IsClosed now sid left r.sessions h)
  stop_of-Stopped now (commit_raised why) (some sid) left r h e =
      (refl, end_session-IsClosed now sid left r.sessions h)
  stop_of-Stopped now (write_raised why) (some sid) left r h e =
      (refl, All-imp r.sessions (IsClosed-left sid left) h)

  stop_active-Stopped :
      (now : F) (how : Saving) (active : Option Text) (left : List Text) (r : SessionRecorder F)
      → All (IsClosed left active) r.sessions
      → r.active_id ≡ active
      → Stopped (left_by_stop how active left) (stop_active now how active r).1
  unfolding stop_active
  stop_active-Stopped now saved none left r h e = (e, h)
  stop_active-Stopped now (write_raised why) none left r h e = (e, h)
  stop_active-Stopped now (commit_raised why) none left r h e = (e, h)
  stop_active-Stopped now how (some sid) left r h e = stop_of-Stopped now how (some sid) left r h e

  Stopped-IsSound : (left : List Text) (r : SessionRecorder F) → Stopped left r → IsSound left r
  Stopped-IsSound left r (e, h) = subst (λ a. All (IsClosed left a) r.sessions) (sym e) h

  stop-IsSound :
      (now : F) (how : Saving) (left : List Text) (r : SessionRecorder F)
      → IsSound left r
      → IsSound (left_by_stop how r.active_id left) (stop now how r).1
  unfolding stop
  stop-IsSound now how left r h =
      Stopped-IsSound _ (stop_of now how r.active_id r).1
        (stop_of-Stopped now how r.active_id left r h refl)

  -- The rows after an INSERT are those before it and one with the new id.
  insert_session-All :
      (P : SessionRow F → Type 0) (sid : Text) (robot : Option Text) (now : F)
      (rows rows' : List (SessionRow F))
      → All P rows
      → P (record { id = sid; robot = robot; started = now; ended = none })
      → insert_session sid robot now rows ≡ ok rows'
      → All P rows'
  unfolding insert_session
  insert_session-All P sid robot now rows rows' h new e =
      elim (Option-cases (session_row sid rows)) [
        | inl f ↦
            subst (All P) (ok-injective (rw (insert_session, f) at e))
              (All-append P rows _ h (new, tt))
        | inr (row, f) ↦ let c = rw (insert_session, f) at e in cc
      ]

  left_by_start-Stopped :
      (sid : Text) (how : Saving) (left : List Text) (r : SessionRecorder F)
      → Stopped left r
      → Stopped (left_by_start sid how left) r
  left_by_start-Stopped sid saved left r h = h
  left_by_start-Stopped sid (write_raised why) left r h = h
  left_by_start-Stopped sid (commit_raised why) left r (e, h) =
      (e, All-imp r.sessions (IsClosed-widen sid left none) h)

  inserted-IsSound :
      (sid : Text) (how : Saving) (rows : Result (List (SessionRow F))) (left : List Text)
      (r : SessionRecorder F)
      → Stopped left r
      → ((P : SessionRow F → Type 0) (rows' : List (SessionRow F))
          → rows ≡ ok rows'
          → ((row : SessionRow F) → IsClosed left none row → P row)
          → ((row : SessionRow F) → row.id ≡ sid → P row)
          → All P rows')
      → IsSound (left_by_start sid how left) (inserted sid how rows r).1
  unfolding inserted one_of
  inserted-IsSound sid how (err why) left r h each =
      Stopped-IsSound _ r (left_by_start-Stopped sid how left r h)
  inserted-IsSound sid saved (ok rows) left r h each =
      each (IsClosed left (some sid)) rows refl (IsClosed-none left (some sid))
        (λ row e. ground (arith, e, text_eq_refl sid))
  inserted-IsSound sid (write_raised why) (ok rows) left r h each = Stopped-IsSound left r h
  inserted-IsSound sid (commit_raised why) (ok rows) left r (e, h) each =
      each (IsClosed (sid ∷ left) r.active_id) rows refl
        (λ row p. IsClosed-none (sid ∷ left) r.active_id row (IsClosed-widen sid left none row p))
        (λ row e. ground (arith, e, text_eq_refl sid))

  begin-IsSound :
      (sid : Text) (robot : Option Text) (now : F) (how : Saving)
      (result : Result (Option (SessionRow F))) (left : List Text) (r : SessionRecorder F)
      → Stopped left r
      → IsSound (left_by_start sid how left) (begin sid robot now how result r).1
  unfolding begin
  begin-IsSound sid robot now how (err why) left r h =
      Stopped-IsSound _ r (left_by_start-Stopped sid how left r h)
  begin-IsSound sid robot now how (ok row) left r h =
      inserted-IsSound sid how (insert_session sid robot now r.sessions) left r h
        (λ P rows' e old new.
          insert_session-All P sid robot now r.sessions rows' (All-imp r.sessions old h.1)
            (new _ refl) e)

  start-IsSound :
      (sid : Text) (robot : Option Text) (now later : F) (ended how : Saving) (left : List Text)
      (r : SessionRecorder F)
      → IsSound left r
      → IsSound
          (left_by_start sid how (left_by_stop ended r.active_id left))
          (start sid robot now ended later how r).1
  unfolding start
  start-IsSound sid robot now later ended how left r h =
      let (result, r') = stop_active now ended r.active_id r in
      begin-IsSound sid robot later how result (left_by_stop ended r.active_id left) r'
        (stop_active-Stopped now ended r.active_id left r h refl)

  save_event-IsSound :
      (sid kind : Text) (now : F) (how : Saving) (text : Option Text) (left : List Text)
      (r : SessionRecorder F)
      → IsSound left r
      → IsSound left (save_event sid kind now how text r).1
  unfolding save_event
  save_event-IsSound sid kind now saved text left r h = h
  save_event-IsSound sid kind now (write_raised why) text left r h = h
  save_event-IsSound sid kind now (commit_raised why) text left r h = h

  note_event-IsSound :
      (target : Option Text) (kind : Text) (dumped : Option (Result Text)) (now : F) (how : Saving)
      (left : List Text) (r : SessionRecorder F)
      → IsSound left r
      → IsSound left (note_event target kind dumped now how r).1
  unfolding note_event
  note_event-IsSound none kind dumped now how left r h = h
  note_event-IsSound (some sid) kind none now how left r h =
      save_event-IsSound sid kind now how none left r h
  note_event-IsSound (some sid) kind (some (ok text)) now how left r h =
      save_event-IsSound sid kind now how (some text) left r h
  note_event-IsSound (some sid) kind (some (err why)) now how left r h = h

  with_open-IsClosed :
      (ended : Bool) (row : SessionRow F) (ids : List Text) (rows : List (SessionRow F))
      → has_ended row ≡ ended
      → All (IsClosed ids none) rows
      → All (IsClosed (with_open ended row.id ids) none) (row ∷ rows)
  unfolding with_open one_of
  with_open-IsClosed true row ids rows e h = (ground (arith, e), h)
  with_open-IsClosed false row ids rows e h =
      (ground (arith, text_eq_refl row.id), All-imp rows (IsClosed-widen row.id ids none) h)

  open_ids-IsClosed : (rows : List (SessionRow F)) → All (IsClosed (open_ids rows) none) rows
  unfolding open_ids
  open_ids-IsClosed [] = tt
  open_ids-IsClosed (row ∷ rows) =
      with_open-IsClosed (has_ended row) row (open_ids rows) rows refl (open_ids-IsClosed rows)

  -- The recorders that calls lead to, whatever each of them returned or raised, with the ids of the
  -- sessions that were open in the database at the beginning, or whose stop could not be written, or
  -- whose start raised at its commit.
  pub data Recorded : List Text → SessionRecorder F → Type 0 where
    opened :
        (rows : List (SessionRow F)) (events : List (EventRow F))
        → Recorded (open_ids rows) (open_recorder rows events)
    started_one :
        {left : List Text} {r : SessionRecorder F} (sid : Text) (robot : Option Text)
        (now later : F) (ended how : Saving)
        → Recorded left r
        → Recorded
            (left_by_start sid how (left_by_stop ended r.active_id left))
            (start sid robot now ended later how r).1
    stopped_one :
        {left : List Text} {r : SessionRecorder F} (now : F) (how : Saving)
        → Recorded left r
        → Recorded (left_by_stop how r.active_id left) (stop now how r).1
    noted_one :
        {left : List Text} {r : SessionRecorder F} (session_id : Option Text) (kind : Text)
        (dumped : Option (Result Text)) (now : F) (how : Saving)
        → Recorded left r
        → Recorded left (add_event session_id kind dumped now how r).1

  -- After any sequence of calls on any database, whatever each of them returned or raised, every
  -- session has ended, or is the active one, or was open in the database at the beginning, or is one
  -- whose stop failed to write it or whose start failed at its commit.
  pub Recorded-IsSound :
      (left : List Text) (r : SessionRecorder F) → Recorded left r → IsSound left r
  unfolding add_event
  Recorded-IsSound _ _ (opened rows events) = open_ids-IsClosed rows
  Recorded-IsSound _ _ (started_one sid robot now later ended how before) =
      start-IsSound sid robot now later ended how _ _ (Recorded-IsSound _ _ before)
  Recorded-IsSound _ _ (stopped_one now how before) =
      stop-IsSound now how _ _ (Recorded-IsSound _ _ before)
  Recorded-IsSound _ _ (noted_one session_id kind dumped now how before) =
      note_event-IsSound _ kind dumped now how _ _ (Recorded-IsSound _ _ before)
