-- ===== src/Messages/Signals2.antt =====
-- The backend's sentences and their message codes, part 2 of 3 (SIGNALS of
-- frontend/src/utils/errShapes.ts).
use phpo.Base.{List, [], ◌∷◌, Text, lit}

abbrev pub signals_2 : List (Text × Text)
signals_2 =
    (lit "拉取 {ref} 失败（{why}）", lit "err.pullWithSource")
    ∷ (lit "服务端错误 HTTP {code}", lit "err.mirrorServerError")
    ∷ (lit "HTTP {code}（该地址可能不是 Docker 镜像源）", lit "err.mirrorHttpStatus")
    ∷ (lit "未找到 podman CLI；请手动执行 podman load -i {tar}", lit "err.podmanNoLoadCLI")
    ∷ (lit "未找到 podman CLI，无法导出镜像缓存", lit "err.podmanNoSaveCLI")
    ∷ (
      lit "podman 的镜像 load 仅支持本地 unix 端点（当前端点：{host}）；请手动执行 podman load -i {tar}",
      lit "err.podmanLoadRemote",
    )
    ∷ (lit "podman 的镜像 save 仅支持本地 unix 端点（当前端点：{host}）", lit "err.podmanSaveRemote")
    ∷ (lit "podman load 失败: {err}：{out}", lit "err.podmanLoadFailed")
    ∷ (lit "podman save 失败: {err}：{out}", lit "err.podmanSaveFailed")
    ∷ (lit "创建导出文件失败", lit "err.saveCreateFile")
    ∷ (lit "打开镜像 tar 失败", lit "err.loadOpenTar")
    ∷ (lit "读取 pull 进度失败", lit "err.pullReadProgress")
    ∷ (lit "docker load 读取失败", lit "err.loadRead")
    ∷ (lit "docker load 失败", lit "err.loadFailed")
    ∷ (lit "docker pull 失败", lit "err.pullFailed")
    ∷ (lit "docker rmi 失败", lit "err.rmiFailed")
    ∷ (lit "docker save 失败", lit "err.saveFailed")
    ∷ (lit "docker save 写入失败", lit "err.saveWrite")
    ∷ (lit "docker tag 失败", lit "err.tagFailed")
    ∷ (lit "从容器取回文件失败", lit "err.copyFromFailed")
    ∷ (lit "读取待拷贝文件失败", lit "err.copyReadHost")
    ∷ (lit "读取容器 tar 失败", lit "err.copyReadTar")
    ∷ (lit "拷贝进容器失败", lit "err.copyToFailed")
    ∷ (lit "容器内建暂存目录失败", lit "err.copyMkdirStaging")
    ∷ (lit "写入取回文件失败", lit "err.copyWriteHost")
    ∷ (lit "创建回收站失败", lit "err.trashMkdir")
    ∷ (lit "从回收站恢复失败 {from} → {to}", lit "err.trashRestore")
    ∷ (lit "回收站根目录未配置", lit "err.trashRootMissing")
    ∷ (lit "清空回收站条目失败 {path}", lit "err.trashPurge")
    ∷ (lit "提权移入回收站失败 {from} → {to}", lit "err.trashElevMove")
    ∷ (lit "移入回收站失败 {from} → {to}", lit "err.trashMove")
    ∷ (lit "回收站条目不存在: {id}", lit "err.trashItemMissing")
    ∷ (lit "不认识要删的 Docker 对象类型: {type}", lit "err.cleanUnknownType")
    ∷ (lit "未知资源类型: {type}", lit "err.cleanUnknownResType")
    ∷ (lit "清空构建缓存失败", lit "err.cleanPruneBuild")
    ∷ (lit "删除 swarm 服务失败", lit "err.cleanSwarmService")
    ∷ (lit "删除 swarm 密文失败", lit "err.cleanSwarmSecret")
    ∷ (lit "删除 swarm 配置失败", lit "err.cleanSwarmConfig")
    ∷ (lit "docker plugin rm 失败", lit "err.cleanPluginRm")
    ∷ (lit "当前平台够不着 Docker 的宿主目录", lit "err.hostfsUnsupported")
    ∷ (lit "本机没有 find 命令，无法提权读取", lit "err.hostfsNoFind")
    ∷ (lit "提权读取失败: {err}", lit "err.hostfsElevFail")
    ∷ (lit "系统无 pkexec（polkit），无法自动提权读取", lit "err.hostfsNoPkexec")
    ∷ (lit "路径含空字节", lit "err.delNulPath")
    ∷ (lit "路径是空的", lit "err.delEmptyPath")
    ∷ (lit "名字是空的", lit "err.delEmptyName")
    ∷ (lit "把用户 {user} 移出 docker 组失败", lit "err.delGroupRemove")
    ∷ (lit "本机没有 {cmd} 命令，无法提权删除", lit "err.delNoElevCmd")
    ∷ (lit "本机没有 {cmd} 命令：{err}", lit "err.delNoCmd")
    ∷ (lit "不认识要删的宿主对象类型", lit "err.delUnknownKind")
    ∷ (lit "读 {path} 失败，无法确认用户 {user} 在不在 docker 组里", lit "err.delGroupRead")
    ∷ (lit "回收站还没准备好，这一项不能删（直接删等于绕过 7 天保留）", lit "err.delTrashNotReady")
    ∷ (lit "拒绝删除系统关键目录 {dir}", lit "err.delCriticalRoot")
    ∷ (lit "路径 {p} 不是绝对路径", lit "err.delNotAbsolute")
    ∷ (lit "路径 {p} 不在这一行扫描过的目录之下，或就是那个目录本身，拒绝删除", lit "err.delOutsideScan")
    ∷ (lit "路径 {p} 未归一（可能含 .. 或多余分隔符）", lit "err.delNotClean")
    ∷ (lit "名字 {n} 含空字节", lit "err.delNameNul")
    ∷ (lit "名字 {n} 含路径分隔符，不是一个对象名", lit "err.delNameSep")
    ∷ (lit "名字 {n} 以 - 开头，会被命令当成选项，拒绝执行", lit "err.delNameDash")
    ∷ (lit "删不掉 {path}（通常说明这个 cgroup 里还有进程在跑）", lit "err.delCgroupBusy")
    ∷ (lit "删除网络接口 {name} 失败（多半它还挂在某个容器上）", lit "err.delVethFail")
    ∷ (lit "删除网络命名空间 {name} 失败", lit "err.delNetnsFail")
    ∷ (lit "提权删除 {ref} 失败", lit "err.delElevFail")
    ∷ (lit "删除 {ref} 失败", lit "err.delGenericFail")
    ∷ (lit "系统无 pkexec（polkit），无法自动提权删除", lit "err.delNoPkexec")
    ∷ (lit "{row} 的条目 {p} 不在 {dir} 之下，不是一个接口名", lit "err.delEntryNotUnder")
    ∷ (lit "{row} 的条目 {p} 不是绝对路径", lit "err.delEntryNotAbs")
    ∷ (lit "{row} 的条目名不安全", lit "err.delEntryNameUnsafe")
    ∷ (lit "{row} 的条目不安全", lit "err.delEntryUnsafe")
    ∷ (lit "{row} 这一行的条目 {p} 只是个名字，落不出唯一路径（这一行有 {n} 个候选目录）", lit "err.delRowAmbiguous")
    ∷ (lit "{row} 这一行的条目名 {n} 不是一个安全的文件/目录名", lit "err.delRowNameUnsafe")
    ∷ (lit "{row} 这一项不是宿主上的文件，进不了回收站，只能直接删", lit "err.delTrashNa")
    ∷ (
      lit
          "你勾的这几行里有危险项（容器的网卡、网络命名空间、CNI 留下的网卡与配置、docker 组的成员）——删了正在跑的容器会断网，Docker 也可能起不来。确认知道这个后果再清空",
      lit "err.cleanDangerUnconfirmed",
    )
    ∷ (lit "一项都没勾，先在这份清单里勾出要删哪些", lit "err.cleanNothingPicked")
    ∷ (lit "这张预览已经用过了（一次凭据只能清空一次），请重新预览", lit "err.cleanTicketUsed")
    ∷ (lit "这次预览里没有「{id}」这一项，清空不做（对象可能已经变了，请重新预览）", lit "err.cleanTicketMiss")
    ∷ (lit "这份预览放了超过 {n} 分钟，Docker 上的东西这几分钟里可能已经变了——请重新预览再清空", lit "err.cleanTicketExpired")
    ∷ (lit "资源已清理，但这几个版本没能卸载：{list}", lit "err.cleanUninstallPartial")
    ∷ (lit "一行都没勾，先勾出要清掉哪几行再预览", lit "err.previewNoRows")
    ∷ []
