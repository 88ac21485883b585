-- ===== src/Server/Window.antt =====
-- How many requests the rate limiter accepts within one window.
use broker_ai.Base.{
  ℕ, ◌+◌, ◌≤◌, ◌≡◌, ◌≢◌, refl, sym, ap, ◌∙◌, subst, arith, leb, List, [], ◌∷◌, ◌++◌, length, All,
  Text, text_eq, length-append, All-append, Bool-cases, inl, inr,
}
use broker_ai.Base.Dict.{Dict, lookup, insert, lookup-insert_self, lookup-insert_ne}
use broker_ai.Server.RateLimiter.{
  RateLimiter, new_rate_limiter, or_empty, requests_of, expire, admit, check, log_after, recent,
  Trace, opened, called, other,
}

module _ (limit window : ℕ) (key : Text) where
  -- What the limiter knows of the accepted requests: those it has dropped are past the window.
  pub record Tracks (s : RateLimiter) (now : ℕ) (log : List ℕ) : Type 0 where
    pub old : List ℕ
    pub split : log ≡ old ++ requests_of key s
    pub expired : All (λ t. t + window ≤ now) old
    pub at_most : length (requests_of key s) ≤ limit
    pub same_limit : s.limit ≡ limit
    pub same_window : s.window ≡ window

-- What the loop drops is past the window.
expire_split :
    (window now : ℕ) (ts : List ℕ)
    → (gone : List ℕ) × (ts ≡ gone ++ expire window now ts)
      × All (λ t. t + window ≤ now) gone
      × (length (expire window now ts) ≤ length ts)
unfolding expire
expire_split window now [] = ([], refl, tt, omega arith)
expire_split window now (t ∷ ts) = elim (Bool-cases (leb (t + window) now)) [
  | inr young ↦ rw young ([], refl, tt, omega arith)
  | inl late ↦
      let (gone, split, expired, shorter) = expire_split window now ts in
      rw late
        (t ∷ gone, ap (λ l. t ∷ l) split, (ground (arith, late), expired), omega (arith, shorter))
]

still_expired :
    (window before now : ℕ) (ts : List ℕ)
    → before ≤ now
    → All (λ t. t + window ≤ before) ts
    → All (λ t. t + window ≤ now) ts
still_expired window before now [] h a = tt
still_expired window before now (t ∷ ts) h (late, a) =
    (omega (arith, late, h), still_expired window before now ts h a)

recent_split :
    (window now : ℕ) (old ts : List ℕ)
    → All (λ t. t + window ≤ now) old
    → recent window now (old ++ ts) ≤ length ts
recent_split window now [] [] a = omega arith
recent_split window now [] (t ∷ ts) a = ground (arith, recent_split window now [] ts a)
recent_split window now (t ∷ old) ts a = ground (arith, recent_split window now old ts)

append_assoc : (xs ys zs : List ℕ) → (xs ++ ys) ++ zs ≡ xs ++ (ys ++ zs)
append_assoc [] ys zs = refl
append_assoc (x ∷ xs) ys zs = ap (λ l. x ∷ l) (append_assoc xs ys zs)

requests_of-insert :
    (key : Text) (ts : List ℕ) (d : Dict Text (List ℕ))
    → or_empty (lookup key (insert key ts d)) ≡ ts
requests_of-insert key ts d = ap or_empty (lookup-insert_self key ts d)

module _ (limit window : ℕ) (key : Text) where
  check-Tracks :
      (s : RateLimiter) (before now : ℕ) (log : List ℕ)
      → Tracks limit window key s before log
      → before ≤ now
      → Tracks limit window key (check key now s).1 now (log_after now log (check key now s).0)
  unfolding check
  check-Tracks s before now log tracks h =
      let (gone, split, expired, shorter) = expire_split s.window now (requests_of key s) in
      go (expire s.window now (requests_of key s)) gone split
        (subst (λ w. All (λ t. t + w ≤ now) gone) tracks.same_window expired) shorter
    where
      go :
          (kept gone : List ℕ)
          → requests_of key s ≡ gone ++ kept
          → All (λ t. t + window ≤ now) gone
          → length kept ≤ length (requests_of key s)
          → Tracks limit window key
              (admit key now s kept).1
              now
              (log_after now log (admit key now s kept).0)
      go kept gone split expired shorter =
          let dropped =
            All-append (λ t. t + window ≤ now) tracks.old gone
              (still_expired window before now tracks.old h tracks.expired) expired in
          let now_log =
            tracks.split
            ∙ ap (λ l. tracks.old ++ l) split
            ∙ sym (append_assoc tracks.old gone kept) in
          elim (Bool-cases (leb s.limit (length kept))) [
            | inl full ↦
                let stored = requests_of-insert key kept s.requests in
                rw full (record {
                  old = tracks.old ++ gone;
                  split = now_log ∙ ap (λ l. (tracks.old ++ gone) ++ l) (sym stored);
                  expired = dropped;
                  at_most =
                      subst (λ (l : List ℕ). length l ≤ limit) (sym stored)
                        (omega (arith, shorter, tracks.at_most));
                  same_limit = tracks.same_limit;
                  same_window = tracks.same_window;
                })
            | inr free ↦
                let stored = requests_of-insert key (kept ++ (now ∷ [])) s.requests in
                rw free (record {
                  old = tracks.old ++ gone;
                  split =
                      ap (λ l. l ++ (now ∷ [])) now_log
                      ∙ append_assoc (tracks.old ++ gone) kept (now ∷ [])
                      ∙ ap (λ l. (tracks.old ++ gone) ++ l) (sym stored);
                  expired = dropped;
                  at_most =
                      subst (λ (l : List ℕ). length l ≤ limit) (sym stored)
                        (ground (arith, free, tracks.same_limit, length-append kept (now ∷ [])));
                  same_limit = tracks.same_limit;
                  same_window = tracks.same_window;
                })
          ]

  other-Tracks :
      (s : RateLimiter) (before now : ℕ) (log : List ℕ) (other_key : Text)
      → Tracks limit window key s before log
      → before ≤ now
      → key ≢ other_key
      → Tracks limit window key (check other_key now s).1 now log
  unfolding check
  other-Tracks s before now log other_key tracks h ne =
      go (expire s.window now (requests_of other_key s))
    where
      kept_by :
          (ts : List ℕ)
          → Tracks limit window key (record s { requests = insert other_key ts s.requests }) now log
      kept_by ts =
          let same = ap or_empty (lookup-insert_ne key other_key ts s.requests ne) in
          record {
            old = tracks.old;
            split = tracks.split ∙ ap (λ l. tracks.old ++ l) (sym same);
            expired = still_expired window before now tracks.old h tracks.expired;
            at_most = subst (λ (l : List ℕ). length l ≤ limit) (sym same) tracks.at_most;
            same_limit = tracks.same_limit;
            same_window = tracks.same_window;
          }

      go : (kept : List ℕ) → Tracks limit window key (admit other_key now s kept).1 now log
      go kept = elim (Bool-cases (leb s.limit (length kept))) [
        | inl full ↦ rw full (kept_by kept)
        | inr free ↦ rw free (kept_by (kept ++ (now ∷ [])))
      ]

  Trace-Tracks :
      {s : RateLimiter} {now : ℕ} {log : List ℕ}
      → Trace limit window key s now log
      → Tracks limit window key s now log
  unfolding new_rate_limiter
  Trace-Tracks opened = record {
    old = [];
    split = refl;
    expired = tt;
    at_most = omega arith;
    same_limit = refl;
    same_window = refl;
  }
  Trace-Tracks (called {s} {before} {now} {log} trace h) =
      check-Tracks s before now log (Trace-Tracks trace) h
  Trace-Tracks (other {s} {before} {now} {log} {other_key} trace h ne) =
      other-Tracks s before now log other_key (Trace-Tracks trace) h ne

  -- However the calls of a new limiter come, by all keys and at instants that do not decrease, at
  -- most `limit` of the accepted requests of a key are younger than the window.
  pub Trace-recent :
      {s : RateLimiter} {now : ℕ} {log : List ℕ}
      → Trace limit window key s now log
      → recent window now log ≤ limit
  Trace-recent {s} {now} {log} trace =
      let tracks = Trace-Tracks trace in
      let few = recent_split window now tracks.old (requests_of key s) tracks.expired in
      subst (λ l. recent window now l ≤ limit) (sym tracks.split)
        (omega (arith, few, tracks.at_most))
