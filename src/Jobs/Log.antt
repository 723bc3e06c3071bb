-- ===== src/Jobs/Log.antt =====
-- The log of a job, src/server/jobs/manager.ts: what a line of it looks like, and its row.
use database_admin.Common.{
  split_on, prefix_first, ℕ, zero, suc, ◌-◌, ◌≤◌, ◌≡◌, refl, ap, ◌∙◌, ◌≢◌, inl, inr, false, List,
  [], ◌∷◌, ◌++◌, map, arith, ltb, ◌==◌, Bool-cases, length, take, drop, All, length-append,
  length-take, length-drop, Text, join, includes,
}
use database_admin.Jobs.{newline}
use database_admin.Jobs.Manager.{
  LiveJob, schedule_flush, log_cap, log_line_max, without_cr, truncated, log_line, capped,
  append_log,
}
use database_admin.Jobs.{serialize_log, deserialize_log, log_tail_max_chars}

-- A text without a line feed.
abbrev pub IsLine : Text → Type 0
IsLine t = includes t newline ≡ false

prefix_first-IsLine :
    (c : ℕ) (ls : List Text)
    → (c == newline) ≡ false
    → All IsLine ls
    → All IsLine (prefix_first c ls)
unfolding includes
prefix_first-IsLine c [] h a = (rw h refl, tt)
prefix_first-IsLine c (l ∷ ls) h a = (rw h a.0, a.1)

split_on-IsLine : (s : Text) → All IsLine (split_on newline s)
unfolding split_on includes
split_on-IsLine [] = (refl, tt)
split_on-IsLine (c ∷ s) = elim (Bool-cases (c == newline)) [
  | inr e ↦ rw e (prefix_first-IsLine c (split_on newline s) e (split_on-IsLine s))
  | inl e ↦ rw e (refl, split_on-IsLine s)
]

-- Splitting what was joined.
split_on-line : (t : Text) → IsLine t → split_on newline t ≡ t ∷ []
unfolding split_on includes
split_on-line [] h = refl
split_on-line (c ∷ t) h = elim (Bool-cases (c == newline)) [
  | inr e ↦ rw (e, split_on-line t (rw e at h)) refl
  | inl e ↦ absurd (cc (rw e at h))
]

split_on-append :
    (t s : Text) → IsLine t → split_on newline (t ++ newline ∷ s) ≡ t ∷ split_on newline s
unfolding split_on includes
split_on-append [] s h = refl
split_on-append (c ∷ t) s h = elim (Bool-cases (c == newline)) [
  | inr e ↦ rw (e, split_on-append t s (rw e at h)) refl
  | inl e ↦ absurd (cc (rw e at h))
]

pub split_on-join :
    (t : Text) (ts : List Text)
    → All IsLine (t ∷ ts)
    → split_on newline (join (newline ∷ []) (t ∷ ts)) ≡ t ∷ ts
unfolding join
split_on-join t [] h = split_on-line t h.0
split_on-join t (u ∷ us) h =
    split_on-append t (join (newline ∷ []) (u ∷ us)) h.0 ∙ ap (◌∷◌ t) (split_on-join u us h.1)

deserialize_log-join :
    (t : Text) (ts : List Text)
    → All IsLine (t ∷ ts)
    → ◌≢◌ {A = List Text} (t ∷ ts) ([] ∷ [])
    → deserialize_log (join (newline ∷ []) (t ∷ ts)) ≡ t ∷ ts
unfolding deserialize_log join
deserialize_log-join [] [] h ne = absurd (ne refl)
deserialize_log-join (c ∷ t) [] h ne = split_on-join (c ∷ t) [] h
deserialize_log-join [] (u ∷ us) h ne = split_on-join [] (u ∷ us) h
deserialize_log-join (c ∷ t) (u ∷ us) h ne = split_on-join (c ∷ t) (u ∷ us) h

-- A log of lines comes back from its row as it was, where its text fits the column and it is not
-- one empty line.
pub deserialize_log-serialize_log :
    (lines : List Text)
    → All IsLine lines
    → ◌≢◌ {A = List Text} lines ([] ∷ [])
    → length (join (newline ∷ []) lines) ≤ log_tail_max_chars
    → deserialize_log (serialize_log lines) ≡ lines
unfolding serialize_log
deserialize_log-serialize_log [] h ne fits = unfold deserialize_log join in refl
deserialize_log-serialize_log (t ∷ ts) h ne fits =
    let short : ltb log_tail_max_chars (length (join (newline ∷ []) (t ∷ ts))) ≡ false =
      ground arith in
    rw short (deserialize_log-join t ts h ne)

-- What a line of a log looks like.
abbrev pub longest : ℕ
longest = 4013

pub record IsLogLine (t : Text) : Type 0 where
  pub one_line : IsLine t
  pub short : length t ≤ longest

pub record IsLog (log : List Text) : Type 0 where
  pub lines : All IsLogLine log
  pub count : length log ≤ log_cap

without_cr-IsLine : (t : Text) → IsLine t → IsLine (without_cr t)
unfolding without_cr includes
without_cr-IsLine [] h = h
without_cr-IsLine (c ∷ []) h = ground arith
without_cr-IsLine (c ∷ d ∷ t) h = ground (arith, without_cr-IsLine (d ∷ t))

take-IsLine : (n : ℕ) (t : Text) → IsLine t → IsLine (take n t)
unfolding includes
take-IsLine zero t h = refl
take-IsLine (suc n) [] h = refl
take-IsLine (suc n) (c ∷ t) h = ground (arith, take-IsLine n t)

append-IsLine : (t u : Text) → IsLine t → IsLine u → IsLine (t ++ u)
unfolding includes
append-IsLine [] u h k = k
append-IsLine (c ∷ t) u h k = ground (arith, append-IsLine t u)

log_line-IsLogLine : (t : Text) → IsLine t → IsLogLine (log_line t)
unfolding log_line
log_line-IsLogLine t h =
    let raw = without_cr t in
    let line = without_cr-IsLine t h in
    elim (Bool-cases (ltb log_line_max (length raw))) [
      | inl long ↦ rw long (record {
        one_line =
            append-IsLine (take log_line_max raw) truncated (take-IsLine log_line_max raw line)
              (unfold includes in refl);
        short =
            omega (
              arith,
              length-append (take log_line_max raw) truncated,
              length-take log_line_max raw,
            );
      })
      | inr fits ↦ rw fits (record { one_line = line; short = ground arith })
    ]

All-log_line : (ts : List Text) → All IsLine ts → All IsLogLine (map log_line ts)
All-log_line [] h = tt
All-log_line (t ∷ ts) h = (log_line-IsLogLine t h.0, All-log_line ts h.1)

All-append : (xs ys : List Text) → All IsLogLine xs → All IsLogLine ys → All IsLogLine (xs ++ ys)
All-append [] ys h k = k
All-append (x ∷ xs) ys h k = (h.0, All-append xs ys h.1 k)

All-drop : (n : ℕ) (xs : List Text) → All IsLogLine xs → All IsLogLine (drop n xs)
All-drop zero xs h = h
All-drop (suc n) [] h = tt
All-drop (suc n) (x ∷ xs) h = All-drop n xs h.1

capped-IsLog : (log : List Text) → All IsLogLine log → IsLog (capped log)
unfolding capped
capped-IsLog log h = elim (Bool-cases (ltb log_cap (length log))) [
  | inl long ↦ rw long (record {
    lines = All-drop (length log - log_cap) log h;
    count = ground (arith, length-drop (length log - log_cap) log);
  })
  | inr fits ↦ rw fits (record { lines = h; count = ground arith })
]

schedule_flush-job : (l : LiveJob) → (schedule_flush l).job ≡ l.job
unfolding schedule_flush
schedule_flush-job l = ground arith

-- Whatever is written to it, a log stays a log.
pub append_log-IsLog :
    (line : Text) (l : LiveJob) → IsLog l.job.log → IsLog (append_log line l).job.log
unfolding append_log
append_log-IsLog line l h = rw (schedule_flush-job _) (
    capped-IsLog _ (
      All-append l.job.log _ h.lines (All-log_line (split_on newline line) (split_on-IsLine line))))
