-- ===== src/CloudProvider/Machines.antt =====
-- pkg/cloudprovider/utils.go: the machine of an instance.
use gpu_provisioner.Base.{Option, none, some, []}
use gpu_provisioner.Base.Text.{Bytes, codes}
use gpu_provisioner.Base.Dict.{Dict, lookup, insert}
use gpu_provisioner.Base.Result.{Result, ok, panic, deref, from_ptr, ◌>>=◌}
use gpu_provisioner.Cluster.{Machine}
use gpu_provisioner.Instance.{Instance}
use gpu_provisioner.Instance.Pool.{provisioner_name_label_key}

abbrev pub label_capacity_type : Bytes
label_capacity_type = codes "karpenter.sh/capacity-type"

abbrev pub machine_managed_by_annotation_key : Bytes
machine_managed_by_annotation_key = codes "karpenter.sh/managed-by"

abbrev pub machine_linked_annotation_key : Bytes
machine_linked_annotation_key = codes "karpenter.sh/linked"

-- `if v, ok := tags[key]; ok { m[key] = *v }`, by what the look-up finds
unfoldable pub copied : Bytes → Option (Option Bytes) → Dict Bytes → Result (Dict Bytes)
unfolding insert
copied key none m = ok m
copied key (some none) m = panic
copied key (some (some v)) m = ok (insert key v m)

unfoldable pub copy_tag : Bytes → Dict (Option Bytes) → Dict Bytes → Result (Dict Bytes)
unfolding copied
copy_tag key tags m = copied key (lookup key tags) m

unfoldable pub with_capacity_type : Option Bytes → Dict Bytes → Dict Bytes
unfolding insert
with_capacity_type none m = m
with_capacity_type (some c) m = insert label_capacity_type c m

unfoldable pub with_link : Option Bytes → Dict Bytes → Dict Bytes
unfolding insert
with_link none m = m
with_link (some id) m = insert machine_linked_annotation_key id m

-- The machine with these labels and annotations, and the instance with the labels.
unfoldable pub made : Instance → Dict Bytes → Dict Bytes → Machine × Instance
unfolding with_link
made i labels annotations = (
  record {
    name = from_ptr i.name;
    labels = labels;
    annotations = with_link i.id annotations;
    taints = [];
    requirements = [];
    requests = none;
    provider_id = from_ptr i.id;
  },
  record i { labels = labels },
)

-- `instanceToMachine`. The machine has the label map of the instance, and what is written to it is
-- written to the instance: the second result is the instance afterwards.
unfoldable pub instance_to_machine : Option Instance → Result (Machine × Instance)
unfolding copy_tag with_capacity_type made
instance_to_machine instance_obj = do
  i ← deref instance_obj
  labels ← copy_tag provisioner_name_label_key i.tags (with_capacity_type i.capacity_type i.labels)
  annotations ← copy_tag machine_managed_by_annotation_key i.tags []
  ok (made i labels annotations)
