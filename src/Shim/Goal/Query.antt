-- ===== src/Shim/Goal/Query.antt =====
-- The parameters of `goalTotal`, raiz-shim.js lines 713-734.
use raiz_confidential_stack.Prelude.{
  ℕ, suc, ℤ, pos, Text, codes, Option, [], Result, ok, err, Error, bind_result,
}
use raiz_confidential_stack.Values.{Value, Num, member, text_or, filled}
use raiz_confidential_stack.Vendor.{Vendor, Client}
use raiz_confidential_stack.Shim.Builders.{default_passphrase}
use raiz_confidential_stack.Shim.Codec.{as_big, as_strkey, req_str}
use raiz_confidential_stack.Shim.Events.Raw.{to_number}

-- What the parameters say, once they are read.
pub record Query : Type 0 where
  pub goal : Text
  pub k1 : ℤ
  pub from_ledger : ℕ
  pub client : Client
  pub goal_meta : Option Text
  pub goal_id : Num
  pub events_url : Option Text
  pub events_source : Text

-- `Number.isInteger(n) && n > 0`
positive : Num → Result ℕ
positive (Num.whole (pos (suc n))) = ok (suc n)
positive _ = err Error.from_ledger_required

module _ (V : Vendor) where
  -- lines 713-734: every required parameter is read, in this order, before anything is asked of
  -- the network
  unfoldable pub read_query : Value → Result Query
  unfolding positive
  read_query p = bind_result (req_str p (codes "tokenContractId")) λ token_text.
      bind_result (as_strkey (Value.str token_text) (codes "tokenContractId")) λ token.
        bind_result (req_str p (codes "goalAccount")) λ goal.
          bind_result (req_str p (codes "viewKeySecretHex")) λ key_text.
            bind_result (as_big (Value.str key_text) (codes "viewKeySecretHex")) λ k1.
              bind_result (member p (codes "fromLedger")) λ from.
                bind_result (positive (to_number V from)) λ from_ledger.
                  bind_result (req_str p (codes "rpcUrl")) λ rpc_url.
                    bind_result (member p (codes "passphrase")) λ passphrase.
                      bind_result (member p (codes "verifierContractId")) λ verifier.
                        bind_result (member p (codes "auditorContractId")) λ auditor.
                          bind_result (member p (codes "goalMetaContractId")) λ goal_meta.
                            bind_result (member p (codes "goalMetaGoalId")) λ goal_id.
                              bind_result (member p (codes "eventsUrl")) λ events_url.
                                bind_result (member p (codes "eventsSource")) λ events_source.
                                  ok (record {
                                    goal = goal;
                                    k1 = k1;
                                    from_ledger = from_ledger;
                                    client = record {
                                      rpc_url = rpc_url;
                                      passphrase = text_or passphrase default_passphrase;
                                      token = token;
                                      verifier = text_or verifier [];
                                      auditor = text_or auditor [];
                                    };
                                    goal_meta = filled goal_meta;
                                    goal_id = to_number V goal_id;
                                    events_url = filled events_url;
                                    events_source = text_or events_source [];
                                  })
