-- ===== src/Tests/Usage.antt =====
-- Token usage that is recorded late.
use crapnote.Base.{arith, ◌≤◌, ◌≡◌, none, List, [], ◌∷◌, length}
use crapnote.Base.Ints.{pos}
use crapnote.Db.{Db, read}
use crapnote.Tokens.Usage.{
  UsageStep, records, drains, new_usage_recorder, usage_run, recorded, write_each, stands_for,
  usage_run-stands_for,
}
use crapnote.Tests.{store}

abbrev used : Db
used = record store {
  tokens =
      record {
        id = 1;
        user_id = 1;
        name = [];
        token_hash = "h";
        prefix = [];
        scope = read;
        last_used_at = none;
        expires_at = none;
        revoked_at = none;
        created_at = 0;
      }
      ∷ [];
}

abbrev steps : List UsageStep
steps =
    records (record { token_id = 1; ts = 5 })
    ∷ drains
    ∷ records (record { token_id = 1; ts = 6 })
    ∷ drains
    ∷ drains
    ∷ []

two_fit : length (recorded steps) ≤ (new_usage_recorder (pos 2)).buffer_size
unfolding recorded new_usage_recorder
two_fit = omega arith

usage_run-stands_for_example :
    stands_for (usage_run steps (new_usage_recorder (pos 2), used))
    ≡ write_each (recorded steps) used
usage_run-stands_for_example = usage_run-stands_for (pos 2) steps used two_fit
