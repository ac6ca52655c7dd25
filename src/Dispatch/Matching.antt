-- ===== src/Dispatch/Matching.antt =====
-- The wrappers of OFTonSGX/untrusted/app.c against the cases of `execute_function`,
-- OFTonSGX/trusted/call-table.c: for each wrapper there is one, which calls the same handler and takes
-- each argument by a pointer that suits it.
use ovs_sgx.Prelude.{◌≡◌, refl, Bool, true, false, none, some, map, length}
use ovs_sgx.Dispatch.{Case, width, Wrapper}
use ovs_sgx.Dispatch.Cases.{case_of}
use ovs_sgx.Dispatch.Wrappers.{wrapper_of}
use ovs_sgx.Dispatch.Invocations.{Invocation, readonly_set, cls_rules_format}
use ovs_sgx.Dispatch.Arguments.{accepts_all, cell_of, value}

-- The one wrapper whose call the dispatcher has no case for
unfoldable pub is_unhandled : Invocation → Bool
is_unhandled (cls_rules_format bridge_id ut_crs megamatches n) = true
is_unhandled other = false

-- The case is the wrapper's, calls its handler and suits its arguments, all of which are passed, and
-- which are those of the direct call.
abbrev pub IsMatched : Wrapper → Case → Type 0
IsMatched w c =
    (case_of w.id ≡ some c)
    × (c.handler ≡ w.id)
    × (accepts_all c.takes (map cell_of w.args) ≡ true)
    × (w.n_args ≡ length w.args)
    × (map value (map cell_of w.args) ≡ w.direct)

pub unhandled : (i : Invocation) → is_unhandled i ≡ true → case_of (wrapper_of i).id ≡ none
unfolding wrapper_of case_of is_unhandled
unhandled (cls_rules_format bridge_id ut_crs megamatches n) h = refl
unhandled i h = cc

pub matched : (i : Invocation) → is_unhandled i ≡ false → (c : Case) × IsMatched (wrapper_of i) c
unfolding wrapper_of case_of is_unhandled accepts_all cell_of value width
matched (readonly_set bridge_id table_id) h = (_, (refl, refl, refl, refl, refl))
matched (cls_rules_format bridge_id ut_crs megamatches n) h = cc
matched i h = (_, (refl, refl, refl, refl, refl))
