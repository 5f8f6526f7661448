-- ===== src/ContextEngine/Ordering.antt =====
-- The hash of a package does not depend on the order in which the entries were collected.
use instructional_agent_mvp.Prelude.{String, ◌≡◌, refl, ap}
use instructional_agent_mvp.Schema.{Uuid}
use instructional_agent_mvp.Dumps.{dumps}
use instructional_agent_mvp.Hashing.{Hashing}
use instructional_agent_mvp.Sorting.{text_le, lex}
use instructional_agent_mvp.Sorting.Laws.{
  Reordered, sorted-Reordered, IsOrder, text_le-IsOrder, lex-IsOrder,
}
use instructional_agent_mvp.ContextEngine.Entries.{ApprovedObject, DependencyEntry, Gap}
use instructional_agent_mvp.ContextEngine.Assembly.{ContextRequest, Contents}
use instructional_agent_mvp.ContextEngine.Canonical.{
  relation_key, relation_le, evidence_key, canonical, compute_context_package_hash,
}

-- The same entries in another order; entries with one natural key keep theirs.
pub record IsReordered (c c' : Contents) : Type 0 where
  pub objects :
      Reordered (λ (o : ApprovedObject). o.object_id) c.approved_objects c'.approved_objects
  pub relations : Reordered relation_key c.relations c'.relations
  pub evidence : Reordered evidence_key c.evidence c'.evidence
  pub dependencies :
      Reordered (λ (d : DependencyEntry). d.dependency_id) c.dependency_status c'.dependency_status
  pub gaps : Reordered (λ (g : Gap). g.gap_id) c.gaps c'.gaps

pair_le-IsOrder : IsOrder (lex text_le text_le)
pair_le-IsOrder = lex-IsOrder text_le text_le text_le-IsOrder text_le-IsOrder

relation_le-IsOrder : IsOrder relation_le
relation_le-IsOrder = lex-IsOrder text_le (lex text_le text_le) text_le-IsOrder pair_le-IsOrder

canonical-IsReordered :
    (str_uuid : Uuid → String) (version : String) (q : ContextRequest) (c c' : Contents)
    → IsReordered c c'
    → canonical str_uuid version q c ≡ canonical str_uuid version q c'
unfolding canonical
canonical-IsReordered str_uuid version q c c' r =
    rw
      (
        sorted-Reordered text_le (λ (o : ApprovedObject). o.object_id) text_le-IsOrder
            c.approved_objects c'.approved_objects r.objects,
        sorted-Reordered relation_le relation_key relation_le-IsOrder c.relations c'.relations
            r.relations,
        sorted-Reordered (lex text_le text_le) evidence_key pair_le-IsOrder c.evidence c'.evidence
            r.evidence,
        sorted-Reordered text_le (λ (d : DependencyEntry). d.dependency_id) text_le-IsOrder
            c.dependency_status c'.dependency_status r.dependencies,
        sorted-Reordered text_le (λ (g : Gap). g.gap_id) text_le-IsOrder c.gaps c'.gaps r.gaps,
        canonical,
      )
      refl

-- Two packages for one request, whose lists hold the same entries in another order, have one hash,
-- if the entries of a list that share their natural key keep their order.
pub hash-IsReordered :
    (h : Hashing) (version : String) (q : ContextRequest) (c c' : Contents)
    → IsReordered c c'
    → compute_context_package_hash h version q c ≡ compute_context_package_hash h version q c'
unfolding compute_context_package_hash
hash-IsReordered h version q c c' r =
    ap (λ j. h.digest (dumps j)) (canonical-IsReordered h.str_uuid version q c c' r)
