-- ===== src/Tests/Fixtures.antt =====
-- What AWI reports in the tests, and clients that a test replaces in part.
use awi_catalyst_sdwan_opera.Base.{String, ◌==◌, if◌then◌else◌, [], ◌∷◌}
use awi_catalyst_sdwan_opera.Base.Text.{Unicode}
use awi_catalyst_sdwan_opera.Exec.{ok}
use awi_catalyst_sdwan_opera.Pb
use awi_catalyst_sdwan_opera.Kube.{K8sClient}
use awi_catalyst_sdwan_opera.Awi.{AwiGrpcClient}
use awi_catalyst_sdwan_opera.Sync.{values}
use awi_catalyst_sdwan_opera.Sync.Kinds.{Orders}
use awi_catalyst_sdwan_opera.Tests.MemoryKind.{broken}

abbrev pub u : Unicode
u = record { lower = λ c. c; upper = λ c. c }

abbrev pub vpn : String → Pb.Vpn
vpn id = record { id = id; segment_id = id; segment_name = "" }

abbrev pub site : String → Pb.SiteDetail
site id = record { id = id; ip = "10.0.0.1"; name = ""; site_id = "1" }

abbrev vpc_of : String → String → Pb.Vpc
vpc_of provider id = record {
  account_name = "";
  id = id;
  labels = [];
  name = "main";
  provider = provider;
  region = "";
  tag = "";
}

abbrev pub aws_vpc : Pb.Vpc
aws_vpc = vpc_of "AWS" "vpc-1"

abbrev pub gcp_vpc : Pb.Vpc
gcp_vpc = vpc_of "GCP" "net-1"

abbrev pub aws_instance : Pb.Instance
aws_instance = record {
  id = "i-1";
  labels = [];
  name = "";
  private_ip = "";
  public_ip = "";
  state = "running";
  subnet_id = "";
  vpc_id = "vpc-1";
}

abbrev pub gcp_subnet : Pb.Subnet
gcp_subnet = record {
  cidr_block = "10.0.0.0/24";
  labels = [];
  name = "";
  subnet_id = "s-1";
  vpc_id = "net-1";
  zone = "";
}

module _ {W : Type 0} where
  -- A server that reports one resource of each cloud and kind, and takes every request.
  abbrev pub awi : AwiGrpcClient W
  awi = record {
    connection_controller_client = record {
      connect = λ spec w. (ok tt, w);
      disconnect = λ id w. (ok tt, w);
      list_connections = λ w. (ok [], w);
    };
    app_connection_controller_client = record {
      connect_apps = λ conn w. (ok tt, w);
      disconnect_apps = λ id w. (ok tt, w);
      list_connected_apps = λ w. (ok [], w);
    };
    cloud_client = record {
      list_vpcs = λ provider w. (ok (if provider == "AWS" then aws_vpc ∷ [] else gcp_vpc ∷ []), w);
      list_instances = λ provider w. (ok (if provider == "AWS" then aws_instance ∷ [] else []), w);
      list_sites = λ w. (ok (site "Site-1" ∷ []), w);
      list_subnets = λ provider w. (ok (if provider == "AWS" then [] else gcp_subnet ∷ []), w);
      list_vpns = λ w. (ok (vpn "10" ∷ []), w);
    };
  }

  abbrev pub k8s : K8sClient W
  k8s = record {
    instances = broken;
    sites = broken;
    subnets = broken;
    vpcs = broken;
    vpns = broken;
    network_domains = broken;
    connections = broken;
    app_connections = broken;
  }

abbrev pub orders : Orders
orders = record {
  instances = values;
  sites = values;
  subnets = values;
  vpcs = values;
  vpns = values;
  network_domains = values;
}
