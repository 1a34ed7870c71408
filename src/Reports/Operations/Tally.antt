-- ===== src/Reports/Operations/Tally.antt =====
-- The counts of the operations brief are those of its items.
use cairnline.Base.{
  ℕ, ◌+◌, Bool, true, false, ◌&&◌, ◌≡◌, ◌≢◌, arith, List, [], ◌∷◌, ◌++◌, none, ◌==◌,
}
use cairnline.Base.Lists.{count, count-append}
use cairnline.Reports.Operations.Types.{
  OperationKind, kind_eq, Severity, severity_eq, ProjectOperationItem, ProjectOperationsBrief,
}
use cairnline.Reports.Operations.Brief.{
  Counts, add, add_each, count_assignment, count_missing, count_follow_up, count_handoff,
  count_closeout, count_nothing, count_candidate,
}

abbrev of_kind : OperationKind → ProjectOperationItem → Bool
of_kind k i = i.kind == k

abbrev of_severity : Severity → ProjectOperationItem → Bool
of_severity v i = of_kind OperationKind.assignment i && i.severity == v

pub record Tallied (c : Counts) (items : List ProjectOperationItem) : Type 0 where
  pub candidates :
      count (of_kind OperationKind.memory_candidate) items ≡ c.pending_memory_candidates
  pub missing : count (of_kind OperationKind.missing_evidence) items ≡ c.missing_evidence
  pub follow_ups : count (of_kind OperationKind.review_follow_up) items ≡ c.review_follow_ups
  pub handoffs : count (of_kind OperationKind.handoff) items ≡ c.open_handoffs
  pub closeouts : count (of_kind OperationKind.closeout_ready) items ≡ c.closeout_ready
  pub blocked : count (of_severity Severity.blocked) items ≡ c.blocked_assignments
  pub active : count (of_severity Severity.active) items ≡ c.active_assignments

abbrev pub one : Bool → ℕ
one true = 1
one false = 0

-- `bump` counts the item `i`.
pub record Registers (bump : Counts → Counts) (i : ProjectOperationItem) : Type 0 where
  pub candidates :
      (c : Counts)
      → (bump c).pending_memory_candidates
        ≡ c.pending_memory_candidates + one (of_kind OperationKind.memory_candidate i)
  pub missing :
      (c : Counts)
      → (bump c).missing_evidence
        ≡ c.missing_evidence + one (of_kind OperationKind.missing_evidence i)
  pub follow_ups :
      (c : Counts)
      → (bump c).review_follow_ups
        ≡ c.review_follow_ups + one (of_kind OperationKind.review_follow_up i)
  pub handoffs :
      (c : Counts)
      → (bump c).open_handoffs ≡ c.open_handoffs + one (of_kind OperationKind.handoff i)
  pub closeouts :
      (c : Counts)
      → (bump c).closeout_ready ≡ c.closeout_ready + one (of_kind OperationKind.closeout_ready i)
  pub blocked :
      (c : Counts)
      → (bump c).blocked_assignments ≡ c.blocked_assignments + one (of_severity Severity.blocked i)
  pub active :
      (c : Counts)
      → (bump c).active_assignments ≡ c.active_assignments + one (of_severity Severity.active i)

count-add :
    (test : ProjectOperationItem → Bool) (items : List ProjectOperationItem)
    (i : ProjectOperationItem) (n m : ℕ)
    → count test items ≡ n
    → m ≡ n + one (test i)
    → count test (items ++ i ∷ []) ≡ m
unfolding count
count-add test items i n m h e = ground (arith, count-append test items (i ∷ []))

add-Tallied :
    (bump : Counts → Counts) (i : ProjectOperationItem) (c : Counts)
    (items : List ProjectOperationItem)
    → Registers bump i
    → Tallied c items
    → Tallied (bump c) (items ++ i ∷ [])
add-Tallied bump i c items r t = record {
  candidates = count-add _ items i _ _ t.candidates (r.candidates c);
  missing = count-add _ items i _ _ t.missing (r.missing c);
  follow_ups = count-add _ items i _ _ t.follow_ups (r.follow_ups c);
  handoffs = count-add _ items i _ _ t.handoffs (r.handoffs c);
  closeouts = count-add _ items i _ _ t.closeouts (r.closeouts c);
  blocked = count-add _ items i _ _ t.blocked (r.blocked c);
  active = count-add _ items i _ _ t.active (r.active c);
}

-- The brief while items are added: tallied, and no headline yet.
pub record IsDraft (b : ProjectOperationsBrief) : Type 0 where
  pub tallied : Tallied b.counts b.items
  pub status : b.status ≡ "clear"
  pub next : b.next ≡ none

pub add-IsDraft :
    (bump : Counts → Counts) (i : ProjectOperationItem) (b : ProjectOperationsBrief)
    → Registers bump i
    → IsDraft b
    → IsDraft (add bump i b)
add-IsDraft bump i b r d = record {
  tallied = add-Tallied bump i b.counts b.items r d.tallied;
  status = d.status;
  next = d.next;
}

pub add_each-IsDraft {ℓ} :
    {A : Type ℓ} (bump : Counts → Counts) (view : A → ProjectOperationItem)
    → ((x : A) → Registers bump (view x))
    → (xs : List A) (b : ProjectOperationsBrief) → IsDraft b
    → IsDraft (add_each bump view xs b)
unfolding add_each
add_each-IsDraft bump view r [] b d = d
add_each-IsDraft bump view r (x ∷ rest) b d =
    add_each-IsDraft bump view r rest (add bump (view x) b) (add-IsDraft bump (view x) b (r x) d)

-- An item that is counted nowhere but among the assignments.
pub assignment-Registers :
    (i : ProjectOperationItem)
    → i.kind ≡ OperationKind.assignment
    → Registers (count_assignment i.severity) i
assignment-Registers i k = record {
  candidates = λ c. ground arith;
  missing = λ c. ground arith;
  follow_ups = λ c. ground arith;
  handoffs = λ c. ground arith;
  closeouts = λ c. ground arith;
  blocked = λ c. ground arith;
  active = λ c. ground arith;
}

-- What each other kind of item adds to the counts.
abbrev count_kind : OperationKind → Counts → Counts
count_kind OperationKind.missing_evidence c = count_missing c
count_kind OperationKind.review_follow_up c = count_follow_up c
count_kind OperationKind.handoff c = count_handoff c
count_kind OperationKind.memory_candidate c = count_candidate c
count_kind OperationKind.closeout_ready c = count_closeout c
count_kind _ c = count_nothing c

pub kind-Registers :
    (k : OperationKind) (i : ProjectOperationItem)
    → i.kind ≡ k
    → k ≢ OperationKind.assignment
    → Registers (count_kind k) i
kind-Registers k i e apart = record {
  candidates = λ c. ground arith;
  missing = λ c. ground arith;
  follow_ups = λ c. ground arith;
  handoffs = λ c. ground arith;
  closeouts = λ c. ground arith;
  blocked = λ c. ground arith;
  active = λ c. ground arith;
}
