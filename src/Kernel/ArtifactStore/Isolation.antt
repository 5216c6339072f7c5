-- ===== src/Kernel/ArtifactStore/Isolation.antt =====
-- What a lookup finds in the artifact store.
use miya_api.Prelude.{◌≡◌, some, ◌=?◌, pair_ord, text_ord, if◌then◌else◌}
use miya_api.BTreeMap.{get-insert}
use miya_api.Protocol.Ids.{IsolationKey, ArtifactId, key_ord}
use miya_api.Protocol.Artifacts.{AgentArtifact, id, scope}
use miya_api.Kernel.ArtifactStore.{ArtifactStore, insert, get}

-- After an insertion a lookup finds the new artifact at its own scope and id, and at any other
-- scope or id what it found before.
pub get-insert_lem :
    (store : ArtifactStore) (a : AgentArtifact) (s : IsolationKey) (i : ArtifactId)
    → get (insert store a) s i ≡ (
        if ◌=?◌ {A = IsolationKey × ArtifactId} (scope a, id a) (s, i)
        then some a
        else get store s i)
unfolding get insert
get-insert_lem store a s i = get-insert (scope a, id a) (s, i) a store.artifacts
