-- ===== src/Registry/System/Reachable.antt =====
-- The configuration invariant along every run of the registry.
use hos_tla_contracts.Registry.Admin
use hos_tla_contracts.Base.{Text, ok, some, ℕ, ◌≡◌}
use hos_tla_contracts.Host.{Host, PublicKey}
use hos_tla_contracts.Registry.State.{TlaRegistry}
use hos_tla_contracts.Registry.System.{Method, Reach, Step, back, call, here, next, run}
use hos_tla_contracts.Registry.System.Configuration.{
  IsConfigured, activate_open_tla-IsConfigured, activate_tla-IsConfigured, add_admin-IsConfigured,
  add_ft_allowlist-IsConfigured, new-IsConfigured, register_tla-IsConfigured,
  remove_admin-IsConfigured, remove_ft_allowlist-IsConfigured, renew_tla-IsConfigured,
  same-IsConfigured, suspend_tla-IsConfigured, unsuspend_tla-IsConfigured,
  update_fee_config-IsConfigured,
}
use hos_tla_contracts.Registry.System.Frame.{run-SameSettings, settle-SameSettings}

run-IsConfigured :
    (env : Host) (m : Method) (s s' : TlaRegistry)
    → run env m s ≡ ok s'
    → IsConfigured s
    → IsConfigured s'
unfolding run
run-IsConfigured env (Method.activate_tla t) s s' h configured =
    activate_tla-IsConfigured env t s s' h configured
run-IsConfigured env (Method.renew_tla t) s s' h configured =
    renew_tla-IsConfigured env t s s' h configured
run-IsConfigured env (Method.suspend_tla t) s s' h configured =
    suspend_tla-IsConfigured env t s s' h configured
run-IsConfigured env (Method.unsuspend_tla t) s s' h configured =
    unsuspend_tla-IsConfigured env t s s' h configured
run-IsConfigured env (Method.activate_open_tla t) s s' h configured =
    activate_open_tla-IsConfigured env t s s' h configured
run-IsConfigured env (Method.rent_sub_account t n k w) s s' h configured =
    same-IsConfigured s s'
      (run-SameSettings env (Method.rent_sub_account t n k w) s s' (elim [ ]) h) configured
run-IsConfigured env (Method.rent_sub_account_paid t n k w) s s' h configured =
    same-IsConfigured s s'
      (run-SameSettings env (Method.rent_sub_account_paid t n k w) s s' (elim [ ]) h) configured
run-IsConfigured env (Method.set_main_wallet t n w) s s' h configured =
    same-IsConfigured s s' (run-SameSettings env (Method.set_main_wallet t n w) s s' (elim [ ]) h)
      configured
run-IsConfigured env (Method.renew_sub_account t n) s s' h configured =
    same-IsConfigured s s' (run-SameSettings env (Method.renew_sub_account t n) s s' (elim [ ]) h)
      configured
run-IsConfigured env (Method.retry_signer_install t n) s s' h configured =
    same-IsConfigured s s'
      (run-SameSettings env (Method.retry_signer_install t n) s s' (elim [ ]) h) configured
run-IsConfigured env (Method.list_sub_account t n price k) s s' h configured =
    same-IsConfigured s s'
      (run-SameSettings env (Method.list_sub_account t n price k) s s' (elim [ ]) h) configured
run-IsConfigured env (Method.accept_offer t n b price k) s s' h configured =
    same-IsConfigured s s'
      (run-SameSettings env (Method.accept_offer t n b price k) s s' (elim [ ]) h) configured
run-IsConfigured env (Method.unlist_sub_account t n) s s' h configured =
    same-IsConfigured s s' (run-SameSettings env (Method.unlist_sub_account t n) s s' (elim [ ]) h)
      configured
run-IsConfigured env (Method.revoke_offer t n) s s' h configured =
    same-IsConfigured s s' (run-SameSettings env (Method.revoke_offer t n) s s' (elim [ ]) h)
      configured
run-IsConfigured env (Method.buy_sub_account t n k) s s' h configured =
    same-IsConfigured s s' (run-SameSettings env (Method.buy_sub_account t n k) s s' (elim [ ]) h)
      configured
run-IsConfigured env (Method.buy_sub_account_paid t n b k) s s' h configured =
    same-IsConfigured s s'
      (run-SameSettings env (Method.buy_sub_account_paid t n b k) s s' (elim [ ]) h) configured
run-IsConfigured env (Method.reclaim_sweep_ft t n ft nonce hash) s s' h configured =
    same-IsConfigured s s'
      (run-SameSettings env (Method.reclaim_sweep_ft t n ft nonce hash) s s' (elim [ ]) h)
      configured
run-IsConfigured env (Method.reclaim_finalize t n) s s' h configured =
    same-IsConfigured s s' (run-SameSettings env (Method.reclaim_finalize t n) s s' (elim [ ]) h)
      configured
run-IsConfigured env (Method.schedule_retraction t n) s s' h configured =
    same-IsConfigured s s' (run-SameSettings env (Method.schedule_retraction t n) s s' (elim [ ]) h)
      configured
run-IsConfigured env (Method.cancel_retraction t n) s s' h configured =
    same-IsConfigured s s' (run-SameSettings env (Method.cancel_retraction t n) s s' (elim [ ]) h)
      configured
run-IsConfigured env (Method.set_business_sub_cap t limit) s s' h configured =
    same-IsConfigured s s'
      (run-SameSettings env (Method.set_business_sub_cap t limit) s s' (elim [ ]) h) configured
run-IsConfigured env (Method.set_mother a) s s' h configured =
    same-IsConfigured s s' (run-SameSettings env (Method.set_mother a) s s' (elim [ ]) h) configured
run-IsConfigured env (Method.admin_clear_mother a) s s' h configured =
    same-IsConfigured s s' (run-SameSettings env (Method.admin_clear_mother a) s s' (elim [ ]) h)
      configured
run-IsConfigured env Method.pause s s' h configured =
    same-IsConfigured s s' (run-SameSettings env Method.pause s s' (elim [ ]) h) configured
run-IsConfigured env Method.unpause s s' h configured =
    same-IsConfigured s s' (run-SameSettings env Method.unpause s s' (elim [ ]) h) configured
run-IsConfigured env Method.claim_refund s s' h configured =
    same-IsConfigured s s' (run-SameSettings env Method.claim_refund s s' (elim [ ]) h) configured
run-IsConfigured env (Method.register_tla t kind c l) s s' h configured =
    register_tla-IsConfigured env t kind c l s s' h configured
run-IsConfigured env (Method.add_admin a) s s' h configured =
    add_admin-IsConfigured env a s s' h configured
run-IsConfigured env (Method.remove_admin a) s s' h configured =
    remove_admin-IsConfigured env a s s' h configured
run-IsConfigured env (Method.add_payment_authority a) s s' h configured =
    same-IsConfigured s s' (run-SameSettings env (Method.add_payment_authority a) s s' (elim [ ]) h)
      configured
run-IsConfigured env (Method.remove_payment_authority a) s s' h configured =
    same-IsConfigured s s'
      (run-SameSettings env (Method.remove_payment_authority a) s s' (elim [ ]) h) configured
run-IsConfigured env (Method.update_fee_config c) s s' h configured =
    update_fee_config-IsConfigured env c s s' h configured
run-IsConfigured env (Method.set_parked_signer_pubkey k) s s' h configured =
    same-IsConfigured s s'
      (run-SameSettings env (Method.set_parked_signer_pubkey k) s s' (elim [ ]) h) configured
run-IsConfigured env (Method.withdraw amount r) s s' h configured =
    same-IsConfigured s s' (run-SameSettings env (Method.withdraw amount r) s s' (elim [ ]) h)
      configured
run-IsConfigured env (Method.add_ft_allowlist t) s s' h configured =
    add_ft_allowlist-IsConfigured env t s s' h configured
run-IsConfigured env (Method.remove_ft_allowlist t) s s' h configured =
    remove_ft_allowlist-IsConfigured env t s s' h configured
run-IsConfigured env (Method.admin_clear_settling t n) s s' h configured =
    same-IsConfigured s s'
      (run-SameSettings env (Method.admin_clear_settling t n) s s' (elim [ ]) h) configured
run-IsConfigured env (Method.admin_clear_reclaim_pending t n) s s' h configured =
    same-IsConfigured s s'
      (run-SameSettings env (Method.admin_clear_reclaim_pending t n) s s' (elim [ ]) h) configured

Step-IsConfigured : {s s' : TlaRegistry} → Step s s' → IsConfigured s → IsConfigured s'
Step-IsConfigured {s} {s'} (call env m h) c = run-IsConfigured env m s s' h c
Step-IsConfigured {s} {s'} (back env r h) c =
    same-IsConfigured s s' (settle-SameSettings env r s s' h) c

pub Reach-IsConfigured : {s s' : TlaRegistry} → Reach s s' → IsConfigured s → IsConfigured s'
Reach-IsConfigured here c = c
Reach-IsConfigured (next r step) c = Step-IsConfigured step (Reach-IsConfigured r c)

-- In every state that a sequence of calls and callbacks can lead to from a successful init, with
-- any callers, times and promise results, there is an admin, at most 16 allowed tokens, a
-- creation deposit, a commission of at most 10000 basis points, a grace period of at least a day,
-- and a licensee for every business TLA.
pub new-Reach-IsConfigured :
    (env : Host) (admin hos_extension active_signer : Text) (k : PublicKey) (period : ℕ)
    (s s' : TlaRegistry)
    → Admin.new env admin hos_extension active_signer k period ≡ some s
    → Reach s s'
    → IsConfigured s'
new-Reach-IsConfigured env admin hos_extension active_signer k period s s' made r =
    Reach-IsConfigured r (new-IsConfigured env admin hos_extension active_signer k period s made)
