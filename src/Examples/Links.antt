-- ===== src/Examples/Links.antt =====
-- The theorems on the transports, the peer and the ops jobs at concrete inputs.
use pibot.Prelude.{suc, ◌≡◌, refl, ◌∙◌, true, false, none, some, List, [], ◌∷◌, ◌++◌, All}
use pibot.Prelude.Int.{pos}
use pibot.Python.Text.{Text, codes, contains, text_eq, one_of}
use pibot.Python.Utf8.{Bytes}
use pibot.Python.Result.{ok}
use pibot.Python.Value.{float}
use pibot.Python.Value.Sample.{Float, finite, nan}
use pibot.Protocol.Message.{Message, message, command}
use pibot.Transport.FrameBuffer.{feed_all, drain}
use pibot.Transport.FrameBuffer.Chunks.{
  joined, lines_of, drain-lines, IsLine, feed_all-joined, frames_recovered,
}
use pibot.Transport.Loopback.{send_loopback, recv_loopback}
use pibot.Transport.Loopback.Order.{queue, loopback_queue}
use pibot.Ops.{new_runner}
use pibot.Ops.Events.{
  Event, created, preview_started, confirmed, run_started, guard_set, run_all, executions,
}
use pibot.Ops.Guards.{
  no_confirm, no_grant, unconfirmed_never_runs, unguarded_never_runs, granted_runs,
}

abbrev slow_message : Message Float Unit
slow_message =
    message command (pos 7) (codes "drive")
      ((codes "v", float (finite (pos 9))) ∷ (codes "w", float nan) ∷ [])

abbrev slow_bytes : Bytes
slow_bytes = codes ">7,drive,9.0,nan*B6" ++ b'\n' ∷ []

abbrev example_frames : List Bytes
example_frames = (codes "ACK 1" ++ b'\n' ∷ []) ∷ (codes "ACK 2" ++ b'\n' ∷ []) ∷ []

abbrev example_chunks : List Bytes
example_chunks = codes "ACK" ∷ (codes " 1" ++ b'\n' ∷ codes "ACK 2") ∷ (b'\n' ∷ []) ∷ []

first-IsLine : IsLine (codes "ACK 1" ++ b'\n' ∷ [])
unfolding contains
first-IsLine = (codes "ACK 1", refl, refl)

second-IsLine : IsLine (codes "ACK 2" ++ b'\n' ∷ [])
unfolding contains
second-IsLine = (codes "ACK 2", refl, refl)

frames_recovered_example : feed_all example_chunks [] ≡ (example_frames, [])
frames_recovered_example =
    frames_recovered example_frames example_chunks (first-IsLine, (second-IsLine, tt))
      (unfold joined in refl)

feed_all-joined_example :
    feed_all example_chunks (codes ">1") ≡ drain (codes ">1" ++ joined example_chunks)
feed_all-joined_example =
    feed_all-joined example_chunks (codes ">1")
      (drain-lines (codes ">1") ∙ (unfold lines_of in refl))

loopback_queue_example :
    (send_loopback (codes "ACK 1" ++ b'\n' ∷ []) (queue example_frames)
      ≡ ok (queue (example_frames ++ (codes "ACK 1" ++ b'\n' ∷ []) ∷ [])))
    × (recv_loopback true (queue ((codes "ACK 1" ++ b'\n' ∷ []) ∷ example_frames))
        ≡ ok (some (codes "ACK 1" ++ b'\n' ∷ []), queue example_frames))
    × (recv_loopback true (queue []) ≡ ok (none, queue []))
loopback_queue_example =
    loopback_queue example_frames (codes "ACK 1" ++ b'\n' ∷ []) true first-IsLine

abbrev job_id : Text
job_id = codes "a"

abbrev unconfirmed_events : List (Event Unit)
unconfirmed_events =
    created job_id (codes "flash") tt false
    ∷ preview_started job_id
    ∷ guard_set job_id true
    ∷ run_started job_id
    ∷ []

unconfirmed_events_spare : All (λ e. no_confirm job_id e ≡ true) unconfirmed_events
unfolding no_confirm text_eq
unconfirmed_events_spare = (refl, (refl, (refl, (refl, tt))))

unconfirmed_never_runs_example : executions job_id (run_all unconfirmed_events new_runner).calls ≡ 0
unconfirmed_never_runs_example =
    unconfirmed_never_runs job_id unconfirmed_events unconfirmed_events_spare

abbrev unguarded_events : List (Event Unit)
unguarded_events =
    created job_id (codes "flash") tt false
    ∷ confirmed job_id false
    ∷ guard_set job_id false
    ∷ run_started job_id
    ∷ []

unguarded_events_spare : All (λ e. no_grant job_id e ≡ true) unguarded_events
unfolding no_grant text_eq
unguarded_events_spare = (refl, (refl, (refl, (refl, tt))))

unguarded_never_runs_example : executions job_id (run_all unguarded_events new_runner).calls ≡ 0
unguarded_never_runs_example = unguarded_never_runs job_id unguarded_events unguarded_events_spare

granted_runs_example :
    executions job_id
      (run_all
        (created job_id (codes "flash") tt false ∷ confirmed job_id true ∷ run_started job_id ∷ [])
        new_runner).calls
    ≡ suc (executions job_id [])
granted_runs_example =
    granted_runs job_id (codes "flash") tt false new_runner (unfold one_of in refl)
