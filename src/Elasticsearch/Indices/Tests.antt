-- ===== src/Elasticsearch/Indices/Tests.antt =====
-- An index of two jobs, whose mapping has changed.
use teraslice.Elasticsearch.Indices.{Index, Cluster, is_created, Answers, migrate, create_index}
use teraslice.Elasticsearch.Indices.Migrating.{Kept, migrate-Kept}
use teraslice.Base.{◌≡◌, refl, false, none, [], ◌∷◌, ok}

abbrev jobs : Index
jobs = record { docs = "j1" ∷ "j2" ∷ []; mapping = "m1" }

abbrev cluster : Cluster
cluster = record { indices = ("jobs-1", jobs) ∷ []; aliases = []; templates = [] }

abbrev answers : Answers
answers = record {
  same = ok false;
  template = none;
  create = is_created;
  count = none;
  reindex = none;
  copied = "j1" ∷ "j2" ∷ [];
  recount = none;
  delete = none;
  alias = none;
}

migrate_moves : create_index answers none "jobs-1" "jobs-2" "m2" "job" cluster ≡ (
  record {
    indices = ("jobs-2", record { docs = "j1" ∷ "j2" ∷ []; mapping = "m2" }) ∷ [];
    aliases = ("jobs-1", "jobs-2") ∷ [];
    templates = [];
  },
  none,
)
unfolding create_index
migrate_moves = refl

migrate-Kept_example :
    Kept "jobs-1" "jobs-2" jobs (migrate answers none "jobs-1" "jobs-2" "m2" cluster).0
migrate-Kept_example = migrate-Kept answers "jobs-1" "jobs-2" jobs refl none "m2" cluster refl refl
