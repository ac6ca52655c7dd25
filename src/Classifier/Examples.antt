-- ===== src/Classifier/Examples.antt =====
-- A classifier with a rule for packets whose first word begins with 0x1122 and a rule for all packets.
use ovs_sgx.Prelude.{ℕ, zero, suc, ◌≡◌, refl, none, some, Option, [], ◌∷◌, get_or, bit_and, arith}
use ovs_sgx.Prelude.Bits.{zero-and}
use ovs_sgx.Flow.{Flow, miniflow_init, minimask_init, miniflow_get}
use ovs_sgx.Flow.Expand.{IsWellFormed, miniflow_get-init}
use ovs_sgx.Classifier.{
  ClsRule, ClsTable, Classifier, with_hash, cls_rule_init, classifier_init, classifier_replace,
  classifier_lookup, find_match,
}
use ovs_sgx.Classifier.Invariant.{IsNormal, IsTable, IsClassifier}
use ovs_sgx.Classifier.Highest.{IsHighest, classifier_lookup-IsHighest}
use ovs_sgx.Classifier.{insert_in_chain, update_tables_after_removal, Place, rev_onto}
use ovs_sgx.Classifier.Invariant.{IsChain, IsSorted}
use ovs_sgx.Classifier.ChainInsert.{insert_in_chain-IsChain}
use ovs_sgx.Classifier.Moves.{update_tables_after_removal-IsSorted}
use ovs_sgx.Classifier.Replaced.{classifier_replace-IsClassifier}

abbrev zeros : ℕ → Flow
zeros zero = []
zeros (suc n) = 0 ∷ zeros n

abbrev words : ℕ → Flow
words w = w ∷ zeros 45

abbrev a_rule : ℕ → ℕ → ℕ → ℕ → ClsRule
a_rule address w mask priority =
    cls_rule_init
      (record {
        address = address;
        hash = 0;
        match = record { flow = miniflow_init []; mask = miniflow_init [] };
        priority = 0;
      })
      (record { flow = words w; wc = words mask }) priority

abbrev narrow : ClsRule
narrow = a_rule 100 0x11220000 0xffff0000 10

abbrev wide : ClsRule
wide = a_rule 200 0 0 5

abbrev both : Classifier
both = (classifier_replace (classifier_replace classifier_init wide).0 narrow).0

abbrev address_of : Option ClsRule → ℕ
address_of none = 0
address_of (some r) = r.address

lookup-narrow : address_of (classifier_lookup both (words 0x11223344) none).0 ≡ 100
unfolding classifier_lookup classifier_replace classifier_init cls_rule_init find_match
lookup-narrow = refl

lookup-wide : address_of (classifier_lookup both (words 0x33) none).0 ≡ 200
unfolding classifier_lookup classifier_replace classifier_init cls_rule_init find_match
lookup-wide = refl

get_or-zeros : (n i : ℕ) → get_or (zeros n) i 0 ≡ 0
get_or-zeros zero i = refl
get_or-zeros (suc n) zero = refl
get_or-zeros (suc n) (suc i) = get_or-zeros n i

masked_words :
    (w mask : ℕ)
    → bit_and w mask ≡ w
    → (i : ℕ)
    → bit_and (get_or (words w) i 0) (miniflow_get (minimask_init (words mask)) i)
      ≡ get_or (words w) i 0
unfolding minimask_init
masked_words w mask e zero = rw (miniflow_get-init (words mask) 0) e
masked_words w mask e (suc i) = rw (get_or-zeros 45 i) (zero-and _)

narrow-IsNormal : IsNormal narrow.match.mask narrow
unfolding cls_rule_init
narrow-IsNormal = record {
  full = words 0x11220000;
  compressed = refl;
  size = refl;
  masked = masked_words 0x11220000 0xffff0000 refl;
}

wide-IsNormal : IsNormal wide.match.mask wide
unfolding cls_rule_init
wide-IsNormal = record {
  full = words 0;
  compressed = refl;
  size = refl;
  masked = masked_words 0 0 refl;
}

abbrev single : ClsRule → ClsTable
single r = record {
  rules = (with_hash r ∷ []) ∷ [];
  mask = r.match.mask;
  n_table_rules = 1;
  max_priority = r.priority;
  max_count = 1;
}

single-IsTable :
    (r : ClsRule) → IsWellFormed r.match.mask → IsNormal r.match.mask r → IsTable (single r)
unfolding with_hash
single-IsTable r w v = record {
  well_formed = w;
  rules = record {
    chains = ((tt, tt), tt);
    hashed = (refl, tt);
    normal =
        (record { full = v.full; compressed = v.compressed; size = v.size; masked = v.masked }, tt);
    distinct = (tt, tt);
  };
  bounded = (omega arith, tt);
  counted = ground arith;
}

both-tables : both.tables ≡ single narrow ∷ single wide ∷ []
unfolding cls_rule_init classifier_replace classifier_init
both-tables = refl

both-IsClassifier : IsClassifier both
unfolding cls_rule_init classifier_replace classifier_init with_hash
both-IsClassifier = record {
  tables =
      (single-IsTable narrow refl narrow-IsNormal, (single-IsTable wide refl wide-IsNormal, tt));
  sorted = ((omega arith, tt), (tt, tt));
}

classifier_lookup-IsHighest_example :
    IsHighest both (words 0x11223344) (classifier_lookup both (words 0x11223344) none).0
classifier_lookup-IsHighest_example =
    classifier_lookup-IsHighest both (words 0x11223344) none both-IsClassifier

-- A second rule with the mask of `narrow`.
abbrev narrow_too : ClsRule
narrow_too = a_rule 300 0x33440000 0xffff0000 20

narrow_too-IsNormal : IsNormal narrow_too.match.mask narrow_too
unfolding cls_rule_init
narrow_too-IsNormal = record {
  full = words 0x33440000;
  compressed = refl;
  size = refl;
  masked = masked_words 0x33440000 0xffff0000 refl;
}

classifier_replace-IsClassifier_example : IsClassifier (classifier_replace both narrow_too).0
unfolding cls_rule_init classifier_replace classifier_init
classifier_replace-IsClassifier_example =
    classifier_replace-IsClassifier both narrow_too both-IsClassifier refl narrow_too-IsNormal
      (omega arith, (omega arith, tt))

-- Twins of priorities 10 and 5, and one more of priority 7.
insert_in_chain-IsChain_example :
    IsChain
      (insert_in_chain
        (record narrow { priority = 7 })
        (narrow ∷ record narrow { priority = 5 } ∷ [])).0
unfolding cls_rule_init
insert_in_chain-IsChain_example =
    insert_in_chain-IsChain (record narrow { priority = 7 })
      (narrow ∷ record narrow { priority = 5 } ∷ []) (((omega arith, refl), tt), (tt, tt))
      (refl, (refl, tt))

-- The table of `narrow` lost its rule of priority 10 and has one of priority 3 left.
abbrev fallen : Place
fallen = record {
  before = [];
  table = record (single narrow) { rules = (record narrow { priority = 3 } ∷ []) ∷ [] };
  after = single wide ∷ [];
}

update_tables_after_removal-IsSorted_example : IsSorted (update_tables_after_removal fallen 10)
unfolding cls_rule_init rev_onto
update_tables_after_removal-IsSorted_example =
    update_tables_after_removal-IsSorted fallen 10 (omega arith, tt) ((omega arith, tt), (tt, tt))
