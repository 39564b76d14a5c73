-- ===== src/Cluster/LogFile/Outcome.antt =====
-- What an append to a log file, and a part of one, may leave behind.
use dbstream.Common.{
  ◌+◌, ◌%◌, ◌^◌, ◌≤◌, ◌<◌, ◌≡◌, refl, ◌∙◌, ◌≢◌, ◌⊎◌, inl, inr, [], ◌∷◌, ◌++◌, arith, length,
}
use dbstream.Cluster.Block.{LogEntry}
use dbstream.Cluster.LogFile.{
  Status, ok, fault, LogFile, header_size, max_block_count, finish_append,
}
use dbstream.Cluster.LogFile.Shape.{Shaped, entries, HasTail, IsValid, last_index-concat}

-- The entry is stored behind the others.
pub record Stores (f : LogFile) (e : LogEntry) (g : LogFile) : Type 0 where
  pub valid : IsValid g
  pub appended : entries g.blocks ≡ entries f.blocks ++ e ∷ []
  pub moved : g.log_index ≡ e.log_index
  pub advanced : g.offset ≡ f.offset + e.size

-- The log is as it was.
pub record Keeps (f g : LogFile) : Type 0 where
  pub valid : IsValid g
  pub same : entries g.blocks ≡ entries f.blocks
  pub index : g.log_index ≡ f.log_index
  pub place : g.offset ≡ f.offset

abbrev pub Outcome : LogFile → LogEntry → Status × LogFile → Type 0
Outcome f e (s, g) = ((s ≡ ok) × Stores f e g) ⊎ ((s ≢ ok) × (s ≢ fault) × Keeps f g)

-- The blocks hold the entry already, the counters of the file do not.
pub record Pending (f : LogFile) (e : LogEntry) (g : LogFile) : Type 0 where
  pub shaped : Shaped header_size g.blocks (f.offset + e.size)
  pub tail : HasTail g.blocks g.current
  pub appended : entries g.blocks ≡ entries f.blocks ++ e ∷ []
  pub counted : (length g.blocks ≤ 1) ⊎ (length g.blocks < max_block_count g)
  pub roomy : 1 ≤ max_block_count g
  pub place : g.offset ≡ f.offset
  pub prev : g.prev_log_index ≡ f.prev_log_index

abbrev pub Step : LogFile → LogEntry → Status × LogFile → Type 0
Step f e (s, g) = ((s ≡ ok) × Pending f e g) ⊎ ((s ≢ ok) × (s ≢ fault) × Keeps f g)

pub finish_append-Outcome :
    (f : LogFile) (e : LogEntry) (r : Status × LogFile)
    → f.offset + e.size < 2 ^ 32
    → Step f e r
    → Outcome f e (finish_append e r)
unfolding finish_append
finish_append-Outcome f e (ok, g) small (inl (_, p)) =
    let sum : (g.offset + e.size) % 2 ^ 32 ≡ f.offset + e.size = omega (arith, p.place) in
    inl (
      refl,
      record {
        valid = record {
          shaped = rw sum p.shaped;
          tail = p.tail;
          last = rw p.appended (last_index-concat g.prev_log_index (entries f.blocks) e);
          counted = p.counted;
          roomy = p.roomy;
          word = omega (arith, sum, small);
        };
        appended = p.appended;
        moved = refl;
        advanced = sum;
      },
    )
finish_append-Outcome f e (ok, g) small (inr (n, _, _)) = absurd (n refl)
finish_append-Outcome f e (s, g) small (inl (h, _)) = cc
finish_append-Outcome f e (s, g) small (inr (h, k, p)) = inr (h, k, p)

pub Step-trans :
    (f g : LogFile) (e : LogEntry) (r : Status × LogFile)
    → Keeps f g
    → g.prev_log_index ≡ f.prev_log_index
    → Step g e r
    → Step f e r
Step-trans f g e (s, h) k q (inl (a, p)) = inl (
  a,
  record {
    shaped = rw (← k.place) p.shaped;
    tail = p.tail;
    appended = rw (← k.same) p.appended;
    counted = p.counted;
    roomy = p.roomy;
    place = p.place ∙ k.place;
    prev = p.prev ∙ q;
  },
)
Step-trans f g e (s, h) k q (inr (a, b, p)) = inr (
  a,
  b,
  record {
    valid = p.valid;
    same = p.same ∙ k.same;
    index = p.index ∙ k.index;
    place = p.place ∙ k.place;
  },
)

pub Keeps-refl : (f : LogFile) → IsValid f → Keeps f f
Keeps-refl f v = record { valid = v; same = refl; index = refl; place = refl }
