-- ===== src/Mc/Sessions.antt =====
-- `class SessionRecorder` of pibot/mc/sessions.py. Its two tables are the lists of their rows, in the
-- order of insertion, as its connection sees them; nothing else writes to them. How sqlite takes a
-- statement is an argument, and so is what uuid4, time.time, json.dumps and json.loads give.
pub mod Open
use pibot.Prelude.{
  Bool, true, false, ◌&&◌, not, Option, none, some, List, [], ◌∷◌, ◌++◌, if◌then◌else◌,
}
use pibot.Python.Text.{Text, text_eq, given, is_empty}
use pibot.Python.Result.{Result, ok, err, Error, runtime_error, value_error, ◌>>=◌}
use pibot.Python.Value.{Runtime}

pub record SessionRow (F : Type 0) : Type 0 where
  pub id : Text
  pub robot : Option Text
  pub started : F
  pub ended : Option F

pub record EventRow (F : Type 0) : Type 0 where
  pub session_id : Text
  pub ts : F
  pub kind : Text
  pub data_json : Option Text

pub record SessionRecorder (F : Type 0) : Type 0 where
  pub sessions : List (SessionRow F)
  pub events : List (EventRow F)
  pub active_id : Option Text

-- What becomes of a statement and its commit. Where the commit raises, the connection sees what was
-- written; a read that raises after the commit leaves the same behind.
pub data Saving : Type 0 where
  saved : Saving
  write_raised commit_raised : Error → Saving

-- `__init__`, on a database with such tables
abbrev pub open_recorder :
    {F : Type 0} → List (SessionRow F) → List (EventRow F) → SessionRecorder F
open_recorder rows rest = record { sessions = rows; events = rest; active_id = none }

-- `session_id or self._active_id`
abbrev pub target_of : Option Text → Option Text → Option Text
target_of session_id active = if given session_id then session_id else active

module _ {F : Type 0} where
  -- `_session_row`
  unfoldable pub session_row : Text → List (SessionRow F) → Option (SessionRow F)
  unfolding text_eq
  session_row sid [] = none
  session_row sid (row ∷ rows) = if text_eq row.id sid then some row else session_row sid rows

  -- `_INSERT_SESSION`; the id is a primary key
  unfoldable pub insert_session :
      Text → Option Text → F → List (SessionRow F) → Result (List (SessionRow F))
  unfolding session_row
  insert_session sid robot now rows = elim (session_row sid rows) [
    | some row ↦ err value_error
    | none ↦ ok (rows ++ record { id = sid; robot = robot; started = now; ended = none } ∷ [])
  ]

  -- `_END_SESSION`
  unfoldable pub end_session : F → Text → List (SessionRow F) → List (SessionRow F)
  unfolding text_eq
  end_session now sid [] = []
  end_session now sid (row ∷ rows) =
      (if text_eq row.id sid then record row { ended = some now } else row)
      ∷ end_session now sid rows

  -- The recorder after the active session has ended.
  unfoldable pub finished : F → Text → SessionRecorder F → SessionRecorder F
  unfolding end_session
  finished now sid r = record r { sessions = end_session now sid r.sessions; active_id = none }

  -- `stop`, where such a session is active: the attribute is reset before the row is written
  unfoldable pub stop_of :
      F
      → Saving
      → Option Text
      → SessionRecorder F
      → Result (Option (SessionRow F)) × SessionRecorder F
  unfolding session_row end_session finished
  stop_of now how none r = (err runtime_error, r)
  stop_of now saved (some sid) r =
      (ok (session_row sid (end_session now sid r.sessions)), finished now sid r)
  stop_of now (write_raised why) (some sid) r = (err why, record r { active_id = none })
  stop_of now (commit_raised why) (some sid) r = (err why, finished now sid r)

  -- `stop`: the row that is returned, and the recorder after it
  unfoldable pub stop :
      F → Saving → SessionRecorder F → Result (Option (SessionRow F)) × SessionRecorder F
  unfolding stop_of
  stop now how r = stop_of now how r.active_id r

  -- if self._active_id is not None: self.stop()
  unfoldable pub stop_active :
      F
      → Saving
      → Option Text
      → SessionRecorder F
      → Result (Option (SessionRow F)) × SessionRecorder F
  unfolding stop_of
  stop_active now how none r = (ok none, r)
  stop_active now how (some sid) r = stop_of now how (some sid) r

  -- The INSERT, its commit and the new active session.
  unfoldable pub inserted :
      Text
      → Saving
      → Result (List (SessionRow F))
      → SessionRecorder F
      → Result Text × SessionRecorder F
  inserted sid how (err why) r = (err why, r)
  inserted sid saved (ok rows) r = (ok sid, record r { sessions = rows; active_id = some sid })
  inserted sid (write_raised why) (ok rows) r = (err why, r)
  inserted sid (commit_raised why) (ok rows) r = (err why, record r { sessions = rows })

  -- What follows the stop, unless that raised.
  unfoldable pub begin :
      Text
      → Option Text
      → F
      → Saving
      → Result (Option (SessionRow F))
      → SessionRecorder F
      → Result Text × SessionRecorder F
  unfolding inserted insert_session
  begin sid robot now how (err why) r = (err why, r)
  begin sid robot now how (ok row) r = inserted sid how (insert_session sid robot now r.sessions) r

  -- `start`: a session that is active is stopped first, at the first of the times
  unfoldable pub start :
      Text
      → Option Text
      → F
      → Saving
      → F
      → Saving
      → SessionRecorder F
      → Result Text × SessionRecorder F
  unfolding stop_active begin
  start sid robot now ended later how r =
      let (result, r') = stop_active now ended r.active_id r in begin sid robot later how result r'

  added_event : Text → Text → F → Option Text → SessionRecorder F → SessionRecorder F
  added_event sid kind now text r = record r {
    events = r.events ++ record { session_id = sid; ts = now; kind = kind; data_json = text } ∷ [];
  }

  -- The INSERT of an event and its commit.
  unfoldable pub save_event :
      Text
      → Text
      → F
      → Saving
      → Option Text
      → SessionRecorder F
      → Result (Unit {0}) × SessionRecorder F
  unfolding added_event
  save_event sid kind now saved text r = (ok tt, added_event sid kind now text r)
  save_event sid kind now (write_raised why) text r = (err why, r)
  save_event sid kind now (commit_raised why) text r = (err why, added_event sid kind now text r)

  unfoldable pub note_event :
      Option Text
      → Text
      → Option (Result Text)
      → F
      → Saving
      → SessionRecorder F
      → Result (Unit {0}) × SessionRecorder F
  unfolding save_event
  note_event none kind dumped now how r = (ok tt, r)
  note_event (some sid) kind none now how r = save_event sid kind now how none r
  note_event (some sid) kind (some (ok text)) now how r = save_event sid kind now how (some text) r
  note_event (some sid) kind (some (err why)) now how r = (err why, r)

  -- `add_event`, with what json.dumps gives for the data, if there are any
  unfoldable pub add_event :
      Option Text
      → Text
      → Option (Result Text)
      → F
      → Saving
      → SessionRecorder F
      → Result (Unit {0}) × SessionRecorder F
  unfolding note_event
  add_event session_id kind dumped now how r =
      note_event (target_of session_id r.active_id) kind dumped now how r

module _ {F O : Type 0} (py : Runtime F O) where
  -- ORDER BY started DESC; rows that are equal in it stand in the order of insertion
  insert_row : SessionRow F → List (SessionRow F) → List (SessionRow F)
  insert_row row [] = row ∷ []
  insert_row row (other ∷ rows) =
      if py.lt row.started other.started then other ∷ insert_row row rows else row ∷ other ∷ rows

  unfoldable pub list_sessions : List (SessionRow F) → List (SessionRow F)
  unfolding insert_row
  list_sessions [] = []
  list_sessions (row ∷ rows) = insert_row row (list_sessions rows)

  -- ORDER BY ts
  insert_event : EventRow F → List (EventRow F) → List (EventRow F)
  insert_event e [] = e ∷ []
  insert_event e (f ∷ es) = if py.lt f.ts e.ts then f ∷ insert_event e es else e ∷ f ∷ es

  -- The rows of `_events`.
  unfoldable pub events_of : Text → List (EventRow F) → List (EventRow F)
  unfolding insert_event text_eq
  events_of sid [] = []
  events_of sid (e ∷ es) =
      let rest = events_of sid es in if text_eq e.session_id sid then insert_event e rest else rest

  -- `row["ended"] or time.time()`
  window_end : F → Option F → F
  window_end now none = now
  window_end now (some t) = if py.le t (py.literal 0 0) && py.le (py.literal 0 0) t then now else t

  pub record Bundle : Type 0 where
    pub row : SessionRow F
    pub session_events : List (EventRow F)
    pub window : F × F

  -- `get_session`, before the data of its events are read back
  unfoldable pub get_session : F → Text → SessionRecorder F → Option Bundle
  unfolding session_row events_of window_end
  get_session now sid r = elim (session_row sid r.sessions) [
    | none ↦ none
    | some row ↦ some (record {
      row = row;
      session_events = events_of sid r.events;
      window = (row.started, window_end now row.ended);
    })
  ]
