-- ===== src/Watch/Throttle.antt =====
-- internal/watch/watch.go: what `Decide` lets through for a project over time.
use agentpulse_bridge.Base.{
  ℕ, ◌+◌, ◌-◌, ◌%◌, ◌<◌, ◌≡◌, ◌≢◌, refl, sym, ◌∙◌, inl, inr, Bool, true, false, Option, none, some,
  String, arith, ltb, ltb→lt, str_eq, eq_iff, if◌then◌else◌, Bool-cases, Option-cases,
}
use mathlib.Core.Bool.{false≢true}
use agentpulse_bridge.Base.Dict.{Dict, lookup, insert, lookup-insert}
use agentpulse_bridge.Watch.{
  ProjectEntry, WatchedProjects, File, Decision, spool, drop, emit_project_seen, list_of, decide,
  project_seen_throttle, is_watched, is_recent, recently_seen, seen,
}

abbrev pub second : ℕ
second = 1000000000

-- What the code relies on of time.Format and time.Parse at RFC 3339, which keeps whole seconds: a
-- formatted time is not the empty text, and reads back as the start of its second.
pub record IsClockText (parse : String → Option ℕ) (format : ℕ → String) : Type 0 where
  pub nonempty : (t : ℕ) → str_eq (format t) "" ≡ false
  pub reads_back : (t : ℕ) → parse (format t) ≡ some (t - t % second)

module _ (parse : String → Option ℕ) (format : ℕ → String) where
  -- The project under this key is watched, as `Decide` sees it.
  abbrev pub watched_now : File → String → Bool
  watched_now f key =
      is_watched parse format (list_of f.watch_list) (lookup key (list_of f.watch_list).projects)

  lookup-insert_self :
      (k : String) (e : ProjectEntry) (m : Dict ProjectEntry) → lookup k (insert k e m) ≡ some e
  lookup-insert_self k e m = ground (arith, lookup-insert k k e m, eq_iff k k)

  lookup-insert_ne :
      (k j : String) (e : ProjectEntry) (m : Dict ProjectEntry)
      → j ≢ k
      → lookup j (insert k e m) ≡ lookup j m
  lookup-insert_ne k j e m h = ground (arith, lookup-insert k j e m, eq_iff k j)

  -- The entry of a project, in a list with new projects watched if there is none.
  abbrev pub known : File → String → Option ProjectEntry
  known f key = lookup key (list_of f.watch_list).projects

  -- A known project is watched by its flag, a new one by the list's, and without a list.
  abbrev IsWatchedIn : Option ProjectEntry → Option WatchedProjects → Type 0
  IsWatchedIn none none = Unit
  IsWatchedIn none (some wl) = wl.watch_new_projects ≡ true
  IsWatchedIn (some e) wl = e.watched ≡ true

  abbrev pub IsWatched : File → String → Type 0
  IsWatched f key = IsWatchedIn (known f key) f.watch_list

  -- The entry has a time that can be read and that is less than six hours ago.
  abbrev IsSeenIn : Option ProjectEntry → ℕ → Type 0
  IsSeenIn none now = ⊥
  IsSeenIn (some e) now =
      (e.last_project_seen_at ≢ "")
      × ((t : ℕ) × (parse e.last_project_seen_at ≡ some t) × (now < t + 21600000000000))

  abbrev pub WasSeen : File → String → ℕ → Type 0
  WasSeen f key now = IsSeenIn (known f key) now

  IsWatched_iff :
      (o : Option WatchedProjects) (e : Option ProjectEntry)
      → (is_watched parse format (list_of o) e ≡ true → IsWatchedIn e o)
        × (IsWatchedIn e o → is_watched parse format (list_of o) e ≡ true)
  IsWatched_iff none none = (λ _. tt, λ _. refl)
  IsWatched_iff (some wl) none = (λ h. h, λ h. h)
  IsWatched_iff none (some e) = (λ h. h, λ h. h)
  IsWatched_iff (some wl) (some e) = (λ h. h, λ h. h)

  recent-IsSeenIn :
      (e : Option ProjectEntry) (now : ℕ) → is_recent parse format e now ≡ true → IsSeenIn e now
  unfolding recently_seen
  recent-IsSeenIn none now h = cc
  recent-IsSeenIn (some e) now h = elim (Bool-cases (str_eq e.last_project_seen_at "")) [
    | inl empty ↦ absurd (false≢true (rw empty at h))
    | inr some_text ↦ elim (Option-cases (parse e.last_project_seen_at)) [
      | inl unread ↦ absurd (false≢true (rw (some_text, unread) at h))
      | inr (t, read) ↦ (
        λ same. false≢true (sym some_text ∙ (eq_iff e.last_project_seen_at "").1 same),
        (t, read, ltb→lt now _ (rw (some_text, read) at h)),
      )
    ]
  ]

  old_unseen :
      (e : Option ProjectEntry) (now : ℕ) → is_recent parse format e now ≡ false → ¬ IsSeenIn e now
  unfolding recently_seen
  old_unseen none now h s = s
  old_unseen (some e) now h (some_text, (t, read, late)) =
      elim (Bool-cases (str_eq e.last_project_seen_at "")) [
        | inl empty ↦ some_text ((eq_iff e.last_project_seen_at "").0 empty)
        | inr filled ↦
            let old : ltb now (t + project_seen_throttle) ≡ false = rw (filled, read) at h in
            ground (arith, old, late)
      ]

  -- A file and a decision for a project at a time, and the file that is left.
  pub record IsDecided (f : File) (key name : String) (now : ℕ) (f' : File) (d : Decision)
      : Type 0 where
    pub spools : IsWatched f key → d ≡ spool
    pub drops : ¬ IsWatched f key → WasSeen f key now → d ≡ drop
    pub emits : ¬ IsWatched f key → ¬ WasSeen f key now → d ≡ emit_project_seen
    pub keeps : d ≡ drop → known f' key ≡ known f key
    pub marks :
        d ≢ drop
        → (e : ProjectEntry) × (known f' key ≡ some e)
          × (e.display_name ≡ name)
          × (e.last_project_seen_at ≡ format now)
          × (IsWatched f key → e.watched ≡ true)
          × (¬ IsWatched f key → e.watched ≡ false)
    pub others : (other : String) → other ≢ key → known f' other ≡ known f other
    pub settings : f'.settings ≡ f.settings
    pub version : (list_of f'.watch_list).version ≡ (list_of f.watch_list).version

  -- Every decision, and what it leaves. An event of a project that is watched, by its own flag or, if
  -- it is new, by the list's, is spooled. For any other project a project_seen is let through, unless
  -- one was less than six hours ago by the time that is written: then the call is dropped, and the
  -- project's entry stays. The others write the project's name and the time, and whether it is watched
  -- as before. No decision changes another project's entry, the settings or the version.
  pub decide_lem :
      (f : File) (key name : String) (now : ℕ)
      → let (f', d) = decide parse format f key name now in IsDecided f key name now f' d
  unfolding decide
  decide_lem f key name now =
      let wl = list_of f.watch_list in
      let rec = lookup key wl.projects in
      let mine = λ (w : Bool). lookup-insert_self key (seen parse format name now w) wl.projects in
      let others = λ (w : Bool) (j : String) (h : j ≢ key).
        lookup-insert_ne key j (seen parse format name now w) wl.projects h in
      let watched = IsWatched_iff f.watch_list rec in
      elim (Bool-cases (watched_now f key)) [
        | inl w ↦ rw w (record {
          spools = λ _. refl;
          drops = λ n. absurd (n (watched.0 w));
          emits = λ n. absurd (n (watched.0 w));
          keeps = λ h. cc;
          marks = λ _. (_, mine true, refl, refl, λ _. refl, λ n. absurd (n (watched.0 w)));
          others = others true;
          settings = refl;
          version = refl;
        })
        | inr u ↦
            let unwatched : ¬ IsWatched f key = λ h. false≢true (sym u ∙ watched.1 h) in
            elim (Bool-cases (is_recent parse format rec now)) [
              | inl recent ↦
                  rw (u, recent)
                    (record {
                      spools = λ h. absurd (unwatched h);
                      drops = λ _ _. refl;
                      emits = λ _ n. absurd (n (recent-IsSeenIn rec now recent));
                      keeps = λ _. refl;
                      marks = λ h. absurd (h refl);
                      others = λ j h. refl;
                      settings = refl;
                      version = refl;
                    })
              | inr old ↦
                  rw (u, old)
                    (record {
                      spools = λ h. absurd (unwatched h);
                      drops = λ _ s. absurd (old_unseen rec now old s);
                      emits = λ _ _. refl;
                      keeps = λ h. cc;
                      marks =
                          λ _. (_, mine false, refl, refl, λ h. absurd (unwatched h), λ _. refl);
                      others = others false;
                      settings = refl;
                      version = refl;
                    })
            ]
      ]

  pub decide_spools :
      (f : File) (key name : String) (now : ℕ)
      → (decide parse format f key name now).1 ≡ spool
      → watched_now f key ≡ true
  unfolding decide
  decide_spools f key name now h =
      let rec = lookup key (list_of f.watch_list).projects in
      elim (Bool-cases (watched_now f key)) [
        | inl w ↦ w
        | inr u ↦ elim (Bool-cases (is_recent parse format rec now)) [
          | inl recent ↦ let h' = rw (u, recent) at h in cc
          | inr old ↦ let h' = rw (u, old) at h in cc
        ]
      ]

  -- Where a written time reads back as the start of its second:
  -- after a project_seen was let through for a project, the next decision for it is a drop until six
  -- hours from the start of that second have passed, and lets a project_seen through from then on.
  pub decide_throttles :
      (f : File) (key name name' : String) (t now : ℕ)
      → IsClockText parse format
      → (decide parse format f key name t).1 ≡ emit_project_seen
      → (decide parse format (decide parse format f key name t).0 key name' now).1
        ≡ (if ltb now (t - t % second + project_seen_throttle) then drop else emit_project_seen)
  unfolding decide
  decide_throttles f key name name' t now clock h =
      let wl = list_of f.watch_list in
      elim (Bool-cases (watched_now f key)) [
        | inl w ↦ let h' = rw w at h in cc
        | inr u ↦ elim (Bool-cases (is_recent parse format (lookup key wl.projects) t)) [
          | inl recent ↦ let h' = rw (u, recent) at h in cc
          | inr old ↦
              rw (u, old)
                (rw (lookup-insert_self key (seen parse format name t false) wl.projects)
                  (rw (clock.nonempty t, clock.reads_back t) (ground arith)))
        ]
      ]
