-- ===== src/Health.antt =====
-- internal/health/health.go: the checks of the services, their snapshot, and the notices of what
-- changed. What the services, the database and HandBrakeCLI answer is the record Probes.
use recodarr.Prelude.{
  ℕ, zero, suc, ◌+◌, ◌-◌, ◌*◌, ◌/◌, ◌%◌, ◌≤◌, ◌<◌, ◌≡◌, ◌≢◌, refl, sym, ap, ◌∙◌, Bool, true, false,
  not, ◌&&◌, ◌||◌, Text, codes, text_eq, List, [], ◌∷◌, ◌++◌, Option, none, some, length, take,
  drop, keep, any_of, find_first, count_of, All, ltb, leb, ◌==◌, if◌then◌else◌, arith, Bool-cases,
  Option-cases, inl, inr, ◌⊎◌,
}
use recodarr.Prelude.Order.{text_ltb, sort_by}
use recodarr.Prelude.Paths.{is_empty}
use recodarr.Prelude.Numbers.{itoa}
use recodarr.Store.Rows.{ArrInstanceRow, QbitInstanceRow}
use recodarr.Store.Settings.{AppSettings}
use recodarr.Notify.{Transition, opened, resolved}
pub mod Notices

pub data Level : Type 0 where
  error warn : Level

pub record Issue : Type 0 where
  pub level : Level
  pub source : Text
  pub title : Text
  pub detail : Text

pub record Snapshot : Type 0 where
  pub ok : Bool
  pub issues : List Issue
  pub checked_at : ℕ

-- The answers to the checks: an error is a text. A service of qBittorrent answers with the error of its
-- configuration or of its login.
pub data QbitAnswer : Type 0 where
  well : QbitAnswer
  bad_config login_failed : Text → QbitAnswer

pub record Probes : Type 0 where
  pub time : ℕ
  pub handbrake_found : Bool
  pub mappings : Option ℕ  -- how many; none if the query fails
  pub arr_rows : List ArrInstanceRow
  pub arr_ping : ArrInstanceRow → Option Text
  pub qbit_rows : List QbitInstanceRow
  pub qbit_answer : QbitInstanceRow → QbitAnswer
  pub settings : AppSettings
  pub agent_ping : Option Text
  pub waiting_for_seed : Option ℕ  -- none if the query fails

abbrev issue : Level → Text → Text → Text → Issue
issue level source title detail = record {
  level = level;
  source = source;
  title = title;
  detail = detail;
}

abbrev when : Bool → Issue → List Issue
when true i = i ∷ []
when false i = []

handbrake_issues : Probes → List Issue
handbrake_issues p = when (not p.handbrake_found) (
    issue error (codes "handbrake") (codes "HandBrakeCLI not installed") (
      codes
        "Encodes will fail until HandBrakeCLI is on PATH. The official Docker image bundles it; if you're running outside Docker, install it."))

abbrev none_configured : Option ℕ → Bool
none_configured none = false
none_configured (some n) = n == 0

mapping_issues : Probes → List Issue
mapping_issues p = when (none_configured p.mappings) (
    issue warn (codes "config") (codes "No tag mappings configured") (
      codes
        "Recodarr only queues library items whose tag has a mapping. Add a mapping in Settings → Mappings to start encoding."))

abbrev arr_result : ArrInstanceRow → Option Text → List Issue
arr_result row none = []
arr_result row (some e) =
    issue error (codes "arr:" ++ itoa row.id)
      (row.name ++ codes " (" ++ row.kind ++ codes "): unreachable") e
    ∷ []

-- The results come in any order; the list is sorted below.
arr_issues : (ArrInstanceRow → Option Text) → List ArrInstanceRow → List Issue
arr_issues ping [] = []
arr_issues ping (row ∷ rows) =
    (if row.enabled then arr_result row (ping row) else []) ++ arr_issues ping rows

abbrev qbit_result : QbitInstanceRow → QbitAnswer → List Issue
qbit_result row well = []
qbit_result row (bad_config e) =
    issue error (codes "qbit:" ++ itoa row.id)
      (codes "qBittorrent (" ++ row.name ++ codes "): bad config") e
    ∷ []
qbit_result row (login_failed e) =
    issue error (codes "qbit:" ++ itoa row.id)
      (codes "qBittorrent (" ++ row.name ++ codes "): login failed") e
    ∷ []

qbit_issues : (QbitInstanceRow → QbitAnswer) → List QbitInstanceRow → List Issue
qbit_issues answer [] = []
qbit_issues answer (row ∷ rows) = qbit_result row (answer row) ++ qbit_issues answer rows

abbrev pub is_configured : AppSettings → Bool
is_configured cfg = not (is_empty cfg.agent_url) && not (is_empty cfg.agent_token)

abbrev agent_result : AppSettings → Option Text → List Issue
agent_result cfg none = []
agent_result cfg (some e) =
    issue error (codes "agent") (codes "Remote agent " ++ cfg.agent_url ++ codes ": unreachable") e
    ∷ []

agent_issues : Probes → List Issue
agent_issues p =
    if not p.settings.agent_enabled
    then []
    else if is_configured p.settings
    then agent_result p.settings p.agent_ping
    else issue warn (codes "agent") (codes "Remote agent enabled but URL or token missing")
        (codes "Add both in Settings → Remote Agent, or disable the toggle.")
      ∷ []

abbrev pub some_waiting : Option ℕ → Bool
some_waiting none = false
some_waiting (some n) = ltb 0 n

abbrev count_or : Option ℕ → ℕ
count_or none = 0
count_or (some n) = n

seed_issues : Probes → List Issue
seed_issues p = when (is_empty p.qbit_rows && some_waiting p.waiting_for_seed) (
    issue warn (codes "qbit") (codes "No qBittorrent configured") (
      itoa (count_or p.waiting_for_seed)
      ++ codes
          " job(s) are stuck in waiting_for_seed because there's no qBit to poll. Add one in Settings → qBittorrent, or those jobs will never run."))

unfoldable pub all_issues : Probes → List Issue
unfolding handbrake_issues mapping_issues arr_issues qbit_issues agent_issues seed_issues
all_issues p =
    handbrake_issues p
    ++ (mapping_issues p
        ++ (arr_issues p.arr_ping p.arr_rows
            ++ (qbit_issues p.qbit_answer p.qbit_rows ++ (agent_issues p ++ seed_issues p))))

-- Errors first, then by source.
abbrev pub before : Issue → Issue → Bool
before i j = elim i.level [
  | error ↦ elim j.level [ error ↦ text_ltb i.source j.source | warn ↦ true ]
  | warn ↦ elim j.level [ error ↦ false | warn ↦ text_ltb i.source j.source ]
]

unfoldable pub probe : Probes → Snapshot
unfolding all_issues sort_by
probe p = record {
  ok = is_empty (all_issues p);
  issues = sort_by before (all_issues p);
  checked_at = p.time;
}

unfoldable pub issue_key : Issue → Text
issue_key i = i.source ++ codes "|" ++ i.title

-- A map from the keys to the issues, with a pair for each key.
abbrev pub Index : Type 0
Index = List (Text × Issue)

abbrev pub has_key : Index → Text → Bool
has_key m k = any_of (λ e. text_eq e.0 k) m

unfoldable pub put_issue : Issue → Index → Index
unfolding issue_key
put_issue i [] = (issue_key i, i) ∷ []
put_issue i ((k, j) ∷ m) = if text_eq k (issue_key i) then (k, i) ∷ m else (k, j) ∷ put_issue i m

unfoldable pub index_from : Index → List Issue → Index
unfolding put_issue
index_from m [] = m
index_from m (i ∷ is) = index_from (put_issue i m) is

abbrev pub index_issues : List Issue → Index
index_issues is = index_from [] is

-- A call of notify.SendHealth.
pub record Notice : Type 0 where
  pub key : Text
  pub issue : Issue
  pub transition : Transition

unfoldable pub missing_in : Index → Transition → Index → List Notice
missing_in other t [] = []
missing_in other t ((k, i) ∷ m) =
    if has_key other k
    then missing_in other t m
    else record { key = k; issue = i; transition = t } ∷ missing_in other t m

unfoldable pub diff_and_notify : Index → Index → List Notice
unfolding missing_in
diff_and_notify prev curr = missing_in prev opened curr ++ missing_in curr resolved prev

pub record Checker : Type 0 where
  pub last : Snapshot
  pub last_t : Option ℕ
  pub prev : Index

abbrev pub cache_ttl : ℕ
cache_ttl = 30

-- A tick: the notices and the state after it.
unfoldable pub tick : Probes → Checker → List Notice × Checker
unfolding probe diff_and_notify index_from
tick p c =
    let curr = index_issues (probe p).issues in
    (diff_and_notify c.prev curr, record { last = probe p; last_t = some p.time; prev = curr })

abbrev is_fresh : ℕ → Option ℕ → Bool
is_fresh now none = false
is_fresh now (some t) = ltb (now - t) cache_ttl

-- New
abbrev pub new_checker : Checker
new_checker = record {
  last = record { ok = false; issues = []; checked_at = 0 };
  last_t = none;
  prev = [];
}

-- Snapshot, which a request calls; it leaves the notices to the next tick.
unfoldable pub current_snapshot : Probes → Checker → Snapshot × Checker
unfolding probe
current_snapshot p c =
    if is_fresh p.time c.last_t
    then (c.last, c)
    else (probe p, record c { last = probe p; last_t = some p.time })

-- What happens to a checker, with the answers of the services at the time.
pub data Event : Type 0 where
  ticked requested : Probes → Event

abbrev pub handle : Event → Checker → List Notice × Checker
handle (ticked p) c = tick p c
handle (requested p) c = ([], (current_snapshot p c).1)

unfoldable pub run : List Event → Checker → List Notice × Checker
unfolding tick current_snapshot
run [] c = ([], c)
run (e ∷ es) c = let (ns, c') = handle e c in let (ms, d) = run es c' in (ns ++ ms, d)
