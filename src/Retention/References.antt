-- ===== src/Retention/References.antt =====
-- The sweeps of reporting_platform/retention/retention.py over Nessie's references:
-- `clean_working_branches`, `expire_tags` and `expire_snapshot_tags`. The parsing of times and
-- dates, the clock's date arithmetic and the digits that a pattern's `\d` takes are parameters. Nessie
-- is the list of references that it answers with, the names that it is told to delete, and what it
-- raises for a name, which is a parameter as well.
use Prim.Native.Char.{code}
use Prim.Native.String.{[], ◌∷◌}
use reporting_platform_local.Common.{
  after_prefix, ℕ, Bool, true, false, not, ◌&&◌, ◌||◌, Option, none, some, List, [], ◌∷◌, String,
  ◌==◌, if◌then◌else◌, Result, ok, err, ◌>>=◌, string_eq, nat_eq, date_order, truthy, or_empty,
}
use reporting_platform_local.Retention.Windows.{Fault}

pub data Kind : Type 0 where
  branch tag other_kind : Kind

-- A reference as Nessie lists it: `commit_time` is that of `commitMetaOfHEAD`.
pub record Reference : Type 0 where
  pub kind : Kind
  pub name : String
  pub commits_ahead : Option ℕ
  pub commit_time : Option String

-- What a sweep has done: the references it deleted, and the names it returns unless it raises.
pub record Sweep : Type 0 where
  pub deleted : List String
  pub removed : Result Fault (List String)

-- The turn of an expired reference, which Nessie may refuse to delete
abbrev pub remove : Option Fault → Bool → String → Sweep → Sweep
remove refused true name rest = record {
  deleted = rest.deleted;
  removed = rest.removed >>= λ names. ok (name ∷ names);
}
remove none false name rest = record {
  deleted = name ∷ rest.deleted;
  removed = rest.removed >>= λ names. ok (name ∷ names);
}
remove (some fault) false name rest = record { deleted = []; removed = err fault }

-- The loop of each sweep: `expired` says whether a reference is removed, and `refused` how
-- `nessie.delete_reference` raises for a name, if it does. What has been deleted before a failure
-- stays deleted.
unfoldable pub sweep :
    (Reference → Result Fault Bool) → (String → Option Fault) → Bool → List Reference → Sweep
sweep expired refused dry_run [] = record { deleted = []; removed = ok [] }
sweep expired refused dry_run (ref ∷ refs) =
    let rest = sweep expired refused dry_run refs in
    elim (expired ref) [
      | err fault ↦ record { deleted = []; removed = err fault }
      | ok false ↦ rest
      | ok true ↦ remove (refused ref.name) dry_run ref.name rest
    ]

-- A sweep for which something is read first
abbrev pub started : {A : Type 0} → Result Fault A → (A → Sweep) → Sweep
started (err fault) k = record { deleted = []; removed = err fault }
started (ok a) k = k a

-- The text up to the first "/", and the text after it
unfoldable pub first_segment : String → String × Option String
first_segment [] = ([], none)
first_segment (c ∷ s) =
    let (head, rest) = first_segment s in if code c == 0x2f then ([], some s) else (c ∷ head, rest)

-- The pattern `.+$`: no newline but one at the very end
unfoldable pub is_line : String → Bool
is_line [] = false
is_line (c ∷ []) = not (code c == 10)
is_line (c ∷ (d ∷ s)) =
    let rest = is_line (d ∷ s) in not (code c == 10) && (code d == 10 && not (truthy s) || rest)

-- The names of tags: `TAG_RE`, `SNAPSHOT_RE` and `WORKING_RE`.
module _ (digit : ℕ → Bool) where
  -- `\d{4}-\d{2}-\d{2}`
  unfoldable pub is_date : String → Bool
  is_date (a ∷ (b ∷ (c ∷ (d ∷ (e ∷ (f ∷ (g ∷ (h ∷ (i ∷ (j ∷ [])))))))))) =
      digit (code a)
      && digit (code b)
      && digit (code c)
      && digit (code d)
      && code e == 0x2d
      && digit (code f)
      && digit (code g)
      && code h == 0x2d
      && digit (code i)
      && digit (code j)
  is_date _ = false

  -- `(?P<bd>…)/(?P<run>.+)$`: the date's text
  unfoldable pub dated_run : String → Option String
  dated_run text =
      let (bd, rest) = first_segment text in
      if is_date bd && is_line (or_empty rest) then some bd else none

  -- `[^/]+/` before a dated run
  unfoldable pub named_run : String → Option (String × String)
  named_run text =
      let (name, rest) = first_segment text in
      elim (dated_run (or_empty rest)) [
        | none ↦ none
        | some bd ↦ if truthy name then some (name, bd) else none
      ]

  -- `TAG_RE.match`: the report, where the name has one, and the date's text
  unfoldable pub match_tag : String → Option (Option String × String)
  match_tag name = elim (after_prefix "published/" name) [
    | none ↦ none
    | some rest ↦ elim (named_run rest) [
      | some (report, bd) ↦ some (some report, bd)
      | none ↦ elim (dated_run rest) [ none ↦ none | some bd ↦ some (none, bd) ]
    ]
  ]

  -- `SNAPSHOT_RE.match`: the feed and the date's text
  unfoldable pub match_snapshot : String → Option (String × String)
  match_snapshot name = elim (after_prefix "snapshot/" name) [
    | none ↦ none
    | some rest ↦ named_run rest
  ]
