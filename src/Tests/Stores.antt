-- ===== src/Tests/Stores.antt =====
-- The key-value store and the maps under it on concrete inputs (internal/kvstore).
use raftra.Common.{◌≡◌, [], ◌∷◌, string_eq, nat_eq}
use raftra.Kvstore.Spec.{view, apply_all, perform_all, view-apply_all}
use raftra.Kvstore.{new_kv_store}
use raftra.Tests.Fixtures.{set_x, delete_x}

view-apply_all_example :
    view (apply_all new_kv_store (set_x ∷ delete_x ∷ []))
    ≡ perform_all (view new_kv_store) (set_x ∷ delete_x ∷ [])
view-apply_all_example = view-apply_all new_kv_store (set_x ∷ delete_x ∷ [])
