-- ===== src/Lib.antt =====
-- Azure GPU provisioner: a Karpenter cloud provider that makes one AKS agent pool per machine.
--
-- Karpenter's controllers call the cloud provider (pkg/cloudprovider). It hands machines to the
-- instance provider (pkg/providers/instance), which asks the agent pool service of Azure for pools
-- of one virtual machine, looks in the cluster for their nodes, and gives the result an identifier;
-- the pool is found again from this identifier (pkg/utils). Configuration (pkg/auth), the price
-- list (pkg/providers/pricing) and the offerings (pkg/cache, pkg/providers/instancetype) stand
-- beside this.
--
-- Files:
--   Base           byte strings and package `strings`, maps, results of calls, state passing
--   Ids            pkg/utils/utils.go: ParseAgentPoolNameFromID, ParseSubIDFromID. Ids/Regex holds
--                  the part of package `regexp` that they use, Ids/Fields and Ids/SubId what it
--                  matches in identifiers, and Ids/SingleValued GetAllSingleValuedRequirementLabels
--   Cluster        the objects and the API of the cluster, and `retry.OnError`, as parameters
--   AgentPools     pkg/providers/instance/armutils.go over the AgentPoolsAPI of azure_client.go;
--                  AgentPools/Store is what the service is documented to keep
--   Instance       pkg/providers/instance/instance.go; Instance/Pool is newAgentPoolObject
--   CloudProvider  pkg/cloudprovider/cloudprovider.go; CloudProvider/Machines is utils.go beside it;
--                  CloudProvider/Identity and CloudProvider/Store join it with the layers below
--   Pricing        pkg/providers/pricing/pricing.go; Pricing/Client is the package client beside it, and
--                  Pricing/Runs the updates over time; Pricing/Background is the goroutine of NewProvider
--   Skus           pkg/utils/gpu.go
--   Offerings      pkg/cache
--   Config         pkg/auth/config.go, and WithDefaultBool of pkg/utils/utils.go
--   Settings       pkg/apis/settings/settings.go
--   Labels         pkg/apis/v1alpha1/register.go
--   InstanceTypes  pkg/providers/instancetype. InstanceTypes/Listing is instancetypes.go; of
--                  instancetype.go, InstanceTypes/Requirements is computeRequirements and
--                  InstanceTypes/Reserved the capacity and what is reserved of it;
--                  InstanceTypes/Skus holds the parameters
--   Credentials    pkg/auth/cred.go and autorest_auth.go; Credentials/Clients is
--                  pkg/providers/instance/azure_client.go with pkg/utils/opts/armopts.go
--   Operator       pkg/operator/operator.go, and the constructors of the providers
--   StaticProvisioner  pkg/staticprovisioner/provisioner.go
--   Hack           hack/code: Hack/Prices is prices/prices_gen.go and Hack/Skus is
--                  instancetype_testdata_gen.go: its main function is Hack/Skus/Main with
--                  Hack/Skus/Listing, and Hack/Skus itself what it writes
--   Fake           pkg/fake: Fake/Clone, Fake/Ptr, Fake/Error and Fake/Stack are atomic.go, Fake/Mocked
--                  is types.go, Fake/Prices is pricingapi.go, Fake/Machines is cloudprovider.go,
--                  Fake/Types is instanceType.go, Fake/Client is k8sClient.go and Fake/Polling
--                  pollingHandler.go
--   Tests          the theorems at concrete data, over services defined in Tests/Sample
--
-- An operation of the source `f(ctx, x) (T, error)` is a function to `Result T × W`, where `W` is
-- the state of the world that the services read and change. Services of other repositories (the
-- agent pool service, the API of the cluster, `retry.OnError`, the caches, the price service, the
-- sizes of package skewer, the requirements of Karpenter, floating point, JSON, PEM and the
-- authentication library) are parameters; records and predicates whose names begin with `Is`
-- (`IsRetry`, `IsCache`, `IsScheduling`, `IsJson`, `IsPem`, `IsHeap`, `IsQuoting`, `IsForward`,
-- `IsConfidential`, `IsLog`), and `Store`, state the documented behaviour
-- of those that a theorem relies on. A nil pointer or an index out of range is the result
-- `panic`. Strings are sequences of bytes and identifiers are ASCII.
--
-- Loops over pages take fuel; the theorems on them hold for every fuel above the number of pages.
-- The node is looked for at most fifteen times after the first look, as the backoff of the source
-- says. A generator looks at a provider 302 times at most, since a sleep of a second takes one at least. The listing of the sizes by the generator ends with its pages, and not at all where every call fails. The blocks of a PEM text are read on as much fuel as it has bytes. Words of 32 and 64 bits wrap
-- around as written in Base/Int.
--
-- Not modelled: log lines (where they do not dereference a pointer), the program's main (cmd), which
-- registers controllers of other repositories, the flags and profiles of the generators (hack/code),
-- the options of the HTTP client, generated code and tables (of pkg/fake the mocks that MockGen and gomock
-- make), tests and vendored packages.
pub mod Base
pub mod Ids
pub mod Cluster
pub mod AgentPools
pub mod Instance
pub mod CloudProvider
pub mod Skus
pub mod Pricing
pub mod Offerings
pub mod Config
pub mod Labels
pub mod InstanceTypes
pub mod Fake
pub mod Credentials
pub mod Settings
pub mod Operator
pub mod StaticProvisioner
pub mod Hack
pub mod Tests
