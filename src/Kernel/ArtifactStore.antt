-- ===== src/Kernel/ArtifactStore.antt =====
-- `ArtifactStore` of crates/agent-kernel/src/lib.rs: artifacts by scope and id.
pub mod Isolation
use miya_api.Prelude.{Bool, Option, is_some, pair_ord, text_ord}
use miya_api.BTreeMap
use miya_api.BTreeMap.{BTreeMap}
use miya_api.Protocol.Ids.{IsolationKey, ArtifactId, key_ord}
use miya_api.Protocol.Tasks.{ArtifactRef}
use miya_api.Protocol.Artifacts.{AgentArtifact, id, scope}

pub record ArtifactStore : Type 0 where
  pub artifacts : BTreeMap (IsolationKey × ArtifactId) AgentArtifact

pub new : ArtifactStore
new = record { artifacts = BTreeMap.empty }

unfoldable pub insert : ArtifactStore → AgentArtifact → ArtifactStore
unfolding scope id
insert store artifact = record {
  artifacts = BTreeMap.insert (scope artifact, id artifact) artifact store.artifacts;
}

unfoldable pub get : ArtifactStore → IsolationKey → ArtifactId → Option AgentArtifact
get store s i = BTreeMap.get (s, i) store.artifacts

unfoldable pub contains_ref : ArtifactStore → ArtifactRef → Bool
unfolding get
contains_ref store r = is_some (get store r.scope r.artifact_id)
