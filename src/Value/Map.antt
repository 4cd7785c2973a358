-- ===== src/Value/Map.antt =====
-- The laws of Go maps, for `insert` and `lookup`.
use otelstore.Base.{ℕ, suc, String, ◌≡◌, refl, none, some, arith, ◌==◌, if◌then◌else◌}
use otelstore.Value.{Value, Fields, no_fields, field_then, insert, lookup}

pub lookup-insert :
    (k j : String) (v : Value) (m : Fields)
    → lookup j (insert k v m) ≡ (if k == j then some v else lookup j m)
unfolding lookup insert
lookup-insert k j v no_fields = refl
lookup-insert k j v (field_then i w m) = ground (arith, lookup-insert k j v m)

-- Each key is there once.
abbrev pub HasDistinctKeys : Fields → Type 0
HasDistinctKeys no_fields = Unit
HasDistinctKeys (field_then k v m) = (lookup k m ≡ none) × HasDistinctKeys m

pub insert-HasDistinctKeys :
    (k : String) (v : Value) (m : Fields) → HasDistinctKeys m → HasDistinctKeys (insert k v m)
unfolding lookup insert
insert-HasDistinctKeys k v no_fields h = (refl, tt)
insert-HasDistinctKeys k v (field_then i w m) (fresh, h) =
    ground (arith, insert-HasDistinctKeys k v m h, lookup-insert k i v m)

-- len(m)
abbrev pub size : Fields → ℕ
size no_fields = 0
size (field_then k v m) = suc (size m)
