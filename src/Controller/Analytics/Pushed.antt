-- ===== src/Controller/Analytics/Pushed.antt =====
-- What the cluster master adds up of the analytics of
-- packages/teraslice/lib/workers/execution-controller/execution-analytics.js.
use teraslice.Controller.Analytics.{
  PushAnswer, is_recorded, not_added, answer_lost, Counts, no_counts, Diffs, diffs_of, Analytics,
  make_analytics, start, Change, change, push_analytics, pushing, answered, push_answer,
  analytics_tick,
}
use teraslice.Base.{
  ℕ, String, ◌≡◌, refl, sym, ap, subst, ◌∙◌, true, Option, none, some, List, [], ◌∷◌, if◌then◌else◌,
  ℤ, minus, pos, plus, plus-shift, plus_assoc,
}

pub data Field : Type 0 where
  processed failed queued job_duration : Field
  workers_joined workers_disconnected workers_reconnected : Field

abbrev pub count_of : Field → Counts → ℕ
count_of processed c = c.processed
count_of failed c = c.failed
count_of queued c = c.queued
count_of job_duration c = c.job_duration
count_of workers_joined c = c.workers_joined
count_of workers_disconnected c = c.workers_disconnected
count_of workers_reconnected c = c.workers_reconnected

abbrev pub diff_of : Field → Diffs → ℤ
diff_of processed d = d.processed
diff_of failed d = d.failed
diff_of queued d = d.queued
diff_of job_duration d = d.job_duration
diff_of workers_joined d = d.workers_joined
diff_of workers_disconnected d = d.workers_disconnected
diff_of workers_reconnected d = d.workers_reconnected

-- The sum of differences.
abbrev pub total : Field → List Diffs → ℤ
total f [] = pos 0
total f (d ∷ l) = plus (total f l) (diff_of f d)

pub data Op : Type 0 where
  changes : Change → Op
  ticks : Op
  answers : PushAnswer → Op

unfoldable pub step : Op → Analytics → Analytics
unfolding change analytics_tick push_answer
step (changes e) a = change e a
step ticks a = analytics_tick a
step (answers answer) a = push_answer answer a

unfoldable pub run : List Op → Analytics → Analytics
unfolding step
run [] a = a
run (o ∷ os) a = run os (step o a)

diff_of-diffs_of :
    (f : Field) (a p : Counts) → diff_of f (diffs_of a p) ≡ minus (count_of f a) (count_of f p)
unfolding diffs_of
diff_of-diffs_of processed a p = refl
diff_of-diffs_of _ a p = refl

-- The push whose answer is awaited holds the differences to what was pushed before.
abbrev Sent : Counts → Option (Diffs × Counts) → Type 0
Sent p none = Unit
Sent p (some (d, copy)) = (f : Field) → diff_of f d ≡ minus (count_of f copy) (count_of f p)

abbrev Inv : Analytics → Type 0
Inv a =
    (a.is_running ≡ true)
    × ((f : Field) → total f a.added ≡ plus (pos (count_of f a.pushed)) (total f a.lost))
    × Sent a.pushed a.in_transit

pushing-Inv : (o : Option (Diffs × Counts)) (a : Analytics) → Inv a → Inv (pushing o a)
unfolding pushing
pushing-Inv none a h = (h.0, h.1, λ f. diff_of-diffs_of f a.counts a.pushed)
pushing-Inv (some p) a h = h

answered-Inv :
    (answer : PushAnswer) (o : Option (Diffs × Counts)) (a : Analytics)
    → a.in_transit ≡ o
    → Inv a
    → Inv (answered answer o a)
answered-Inv answer none a e h = h
answered-Inv is_recorded (some (d, copy)) a e h =
    let sent : Sent a.pushed (some (d, copy)) = subst (Sent a.pushed) e h.2 in
    (
      h.0,
      λ f.
          ap (λ t. plus t (diff_of f d)) (h.1 f)
          ∙ ap (plus (plus (pos (count_of f a.pushed)) (total f a.lost))) (sent f)
          ∙ plus-shift (count_of f a.pushed) (count_of f copy) (total f a.lost),
      tt,
    )
answered-Inv not_added (some (d, copy)) a e h = (
  h.0,
  λ f.
      h.1 f
      ∙ ap (λ b. plus (pos (count_of f (if b then a.pushed else copy))) (total f a.lost)) (sym h.0),
  tt,
)
answered-Inv answer_lost (some (d, copy)) a e h = (
  h.0,
  λ f.
      ap (λ t. plus t (diff_of f d)) (h.1 f)
      ∙ plus_assoc (pos (count_of f a.pushed)) (total f a.lost) (diff_of f d)
      ∙ ap
          (λ b.
            plus (pos (count_of f (if b then a.pushed else copy)))
              (plus (total f a.lost) (diff_of f d)))
          (sym h.0),
  tt,
)

step-Inv : (o : Op) (a : Analytics) → Inv a → Inv (step o a)
unfolding step change analytics_tick push_analytics push_answer
step-Inv (changes e) a h = h
step-Inv ticks a h =
    subst (λ b. Inv (if b then pushing a.in_transit a else a)) (sym h.0)
      (pushing-Inv a.in_transit a h)
step-Inv (answers answer) a h = answered-Inv answer a.in_transit a refl h

run-Inv : (os : List Op) (a : Analytics) → Inv a → Inv (run os a)
unfolding run
run-Inv [] a h = h
run-Inv (o ∷ os) a h = run-Inv os (step o a) (step-Inv o a h)

total-zero : (f : Field) → total f [] ≡ plus (pos (count_of f no_counts)) (total f [])
total-zero processed = refl
total-zero _ = refl

-- While an execution runs, whatever the order of events, pushes and their answers: for every field, what the
-- cluster master has added up is what was last pushed with an answer, and once more every push that it
-- has added and whose answer was lost, since the next push holds its differences again. A push that it
-- has not added is made up for by the next one.
pub run-added :
    (now : String) (os : List Op) (f : Field)
    → let a = run os (start now make_analytics) in
      total f a.added ≡ plus (pos (count_of f a.pushed)) (total f a.lost)
unfolding start make_analytics
run-added now os f = (run-Inv os (start now make_analytics) (refl, total-zero, tt)).1 f
