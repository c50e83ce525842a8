-- ===== src/Config/Yaml/Rendered.antt =====
-- server/config.go: a file that was saved is read as what was saved, and can be saved again.
use flaresolverr_go.Prelude.{
  String, Bool, true, false, Option, none, some, ◌≡◌, refl, sym, ap, ◌∙◌, is_one_of, Result,
}
use flaresolverr_go.Prelude.Assoc.{lookup}
use flaresolverr_go.Config.{Proxy}
use flaresolverr_go.Config.Load.{ConfigFile, parsed}
use flaresolverr_go.Config.Yaml.{
  Node, scalar, mapping, other, Fields, find, merge_mapping, entries_of, mapping_node_of, Document,
  absent, unreadable, tree, render_config_yaml, read_document, read_decoded,
}
use flaresolverr_go.Config.Yaml.Merge.{
  Distinct, total, merged, blanked, flat, find-merge_mapping, merge_mapping-Distinct, find-present,
  present-Distinct, distinct_keys,
}
use flaresolverr_go.Config.Yaml.Holds.{
  IsPlain, IsProxy, Holds, Decodes, IsProxyNode, IsMergeable, keys, total-Holds,
}

total-none : (own : Bool) (o : Option Node) → total keys own o none ≡ o
unfolding total merged blanked
total-none true none = refl
total-none false none = refl
total-none true (some v) = refl
total-none false (some v) = refl

IsProxy-IsProxyNode : (o : Option Node) (p : Option Proxy) → IsProxy o p → IsProxyNode o
unfolding IsProxy IsProxyNode
IsProxy-IsProxyNode none p h = tt
IsProxy-IsProxyNode (some (scalar s)) p h = h
IsProxy-IsProxyNode (some other) p h = tt
IsProxy-IsProxyNode (some (mapping fields)) none h = absurd h
IsProxy-IsProxyNode (some (mapping fields)) (some p) h = h.0

-- A plain mapping that holds the settings.
record IsSettings (f : ConfigFile) (node : Node) : Type 0 where
  fields : Fields
  shape : node ≡ mapping fields
  plain : IsPlain fields
  holds : Holds fields f

module _ (f : ConfigFile) where
  entries-distinct : distinct_keys (entries_of f) ≡ true
  unfolding distinct_keys lookup
  entries-distinct = refl

  at-fresh : (k : String) → find k (mapping_node_of f) ≡ flat (lookup k (entries_of f))
  unfolding mapping_node_of
  at-fresh k = find-present (entries_of f) k entries-distinct

  fresh-Distinct : Distinct (mapping_node_of f)
  unfolding mapping_node_of
  fresh-Distinct = present-Distinct (entries_of f) entries-distinct

  fresh-IsSettings : IsSettings f (mapping (mapping_node_of f))
  unfolding IsProxyNode lookup
  fresh-IsSettings = record {
    fields = mapping_node_of f;
    shape = refl;
    plain = record { distinct = fresh-Distinct; no_merge_key = at-fresh "<<" };
    holds =
        total-Holds (mapping_node_of f) f (λ k. none)
          (λ k. at-fresh k ∙ sym (total-none (is_one_of k keys) (flat (lookup k (entries_of f)))))
          tt;
  }

  merged-IsSettings :
      (old : Fields)
      → IsPlain old
      → IsProxyNode (find "proxy" old)
      → IsSettings f (mapping (merge_mapping keys (mapping_node_of f) old))
  unfolding lookup total
  merged-IsSettings old h p =
      let at = λ (k : String).
        find-merge_mapping keys (mapping_node_of f) old k fresh-Distinct h.distinct
        ∙ ap (λ o. total keys (is_one_of k keys) o (find k old)) (at-fresh k) in
      record {
        fields = merge_mapping keys (mapping_node_of f) old;
        shape = refl;
        plain = record {
          distinct = merge_mapping-Distinct keys (mapping_node_of f) old h.distinct;
          no_merge_key = at "<<" ∙ h.no_merge_key;
        };
        holds = total-Holds (merge_mapping keys (mapping_node_of f) old) f (λ k. find k old) at p;
      }

  rendered-IsSettings : (d : Document) → IsMergeable d → IsSettings f (render_config_yaml d f)
  unfolding render_config_yaml IsMergeable
  rendered-IsSettings absent h = fresh-IsSettings
  rendered-IsSettings (unreadable e) h = fresh-IsSettings
  rendered-IsSettings (tree (scalar s)) h = fresh-IsSettings
  rendered-IsSettings (tree other) h = fresh-IsSettings
  rendered-IsSettings (tree (mapping old)) h = merged-IsSettings old h.0 h.1

  settings-parsed :
      (decode : Node → Result ConfigFile) (node : Node)
      → Decodes decode
      → IsSettings f node
      → read_document decode (tree node) ≡ parsed f
  unfolding read_document Decodes
  settings-parsed decode node d s =
      ap (λ n. read_decoded (decode n)) s.shape ∙ ap read_decoded (d s.fields f s.plain s.holds)

  settings-IsMergeable : (node : Node) → IsSettings f node → IsMergeable (tree node)
  unfolding IsMergeable
  settings-IsMergeable node s =
      rw s.shape
        (s.plain, IsProxy-IsProxyNode (find "proxy" s.fields) f.default_proxy s.holds.default_proxy)

-- What is rendered for an init.yaml that can be merged into is read as the settings.
pub rendered-parsed :
    (decode : Node → Result ConfigFile) (d : Document) (f : ConfigFile)
    → Decodes decode
    → IsMergeable d
    → read_document decode (tree (render_config_yaml d f)) ≡ parsed f
rendered-parsed decode d f reads h =
    settings-parsed f decode (render_config_yaml d f) reads (rendered-IsSettings f d h)

-- And settings can be merged into it again.
pub rendered-IsMergeable :
    (d : Document) (f : ConfigFile) → IsMergeable d → IsMergeable (tree (render_config_yaml d f))
rendered-IsMergeable d f h =
    settings-IsMergeable f (render_config_yaml d f) (rendered-IsSettings f d h)
