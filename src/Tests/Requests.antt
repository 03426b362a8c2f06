-- ===== src/Tests/Requests.antt =====
-- A world that is the list of the requests for pools, and what `Create` adds to it.
use gpu_provisioner.Base.{◌≡◌, refl, false, [], ◌∷◌, ◌++◌, List}
use gpu_provisioner.Base.Text.{codes}
use gpu_provisioner.Base.Result.{ok, err, response}
use gpu_provisioner.Cluster.{KubeClient, Retry, IsRetry}
use gpu_provisioner.AgentPools.{AgentPoolsApi}
use gpu_provisioner.Instance.{create}
use gpu_provisioner.Instance.Pool.{new_agent_pool_object}
use gpu_provisioner.Instance.Requests.{Request, IsLog, create-requests}
use gpu_provisioner.Tests.Sample.{run, run-suc, provider, requirement_values, machine, pool}

abbrev Requests : Type 0
Requests = List Request

-- No node is ever there, so that `Create` looks for it as often as it can.
abbrev no_nodes : KubeClient Requests
no_nodes = record { list_nodes = λ selector w. (ok [], w) }

abbrev retry : Retry Requests
retry = record { on_error = λ A b. run b.steps }

abbrev retry-IsRetry : IsRetry retry
retry-IsRetry = record {
  pause = λ b n w. w;
  on_error_lem = λ A b n retriable f e w. run-suc A b.steps n retriable f e w;
}

abbrev recorder : AgentPoolsApi Requests
recorder = record {
  CreatePoller = Unit {0};
  DeletePoller = Unit {0};
  Pager = Unit {0};
  begin_create_or_update = λ rg cluster name a w.
      (ok tt, w ++ record { resource_group = rg; cluster = cluster; name = name; pool = a } ∷ []);
  created = λ poller w. (ok pool, w);
  get = λ rg cluster name w. (err (response (codes "NotFound")), w);
  begin_delete = λ rg cluster name w. (ok tt, w);
  deleted = λ poller w. (ok tt, w);
  new_list_pager = λ rg cluster. tt;
  more = λ pager. false;
  next_page = λ pager w. (ok ([], pager), w);
}

recorder-IsLog : IsLog no_nodes retry retry-IsRetry recorder (λ w. w)
recorder-IsLog = record {
  asked = λ rg cluster name a w. refl;
  answered = λ poller w. refl;
  looked = λ selector w. refl;
  waited = λ b n w. refl;
}

create-requests_example :
    (create no_nodes retry provider recorder requirement_values machine []).1 ≡ (
      record {
        resource_group = codes "rg";
        cluster = codes "cluster";
        name = codes "pool1";
        pool = new_agent_pool_object (codes "Standard_NC6s_v3") machine;
      }
      ∷ [])
unfolding codes
create-requests_example =
    create-requests no_nodes retry retry-IsRetry provider recorder requirement_values (λ w. w)
      recorder-IsLog machine []
